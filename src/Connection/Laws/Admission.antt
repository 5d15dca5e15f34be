-- ===== src/Connection/Laws/Admission.antt =====
-- What `Apply` does to the tests: which mutation adds one, and what it must meet.
use astra_sync.Prelude.{
  Text, text_eq_iff, false, none, some, ◌≡◌, ◌⊎◌, inl, inr, refl, sym, subst, ap, arith,
  Option-cases, Result, ok, err, Result-cases, Map, text_key, at, set_at, same, >>=-passes,
  check-passes,
}
use astra_sync.Connection.Error.{Error, test_required, test_mismatch, test_limit_exceeded}
use astra_sync.Connection.Model.{Connection}
use astra_sync.Connection.Policy.{Outside}
use astra_sync.Connection.Operation.{TestOperation, validate_test}
use astra_sync.Connection.Mutation.{
  Mutation, MutationResult, MutationKind, create_kind, update_kind, rotate_kind, enable_kind,
  disable_kind, delete_kind, test_kind, unsupported_kind, validate_identity,
}
use astra_sync.Connection.Store.{Recorded, Repository}
use astra_sync.Connection.Limits.{limit_exceeded}
use astra_sync.Connection.Apply.{
  keep, required, apply, apply_locked, remember, replay, create_locked, delete_locked, test_locked,
  edit_locked, store_edit, idempotency_key, mutation_key, current_at,
}

module _ (o : Outside) where
  create_locked-tests :
      (r : Repository) (m : Mutation)
      → let (_, s) = keep r (create_locked o r m) in s.tests ≡ r.tests
  unfolding create_locked
  create_locked-tests r m = ground arith

  delete_locked-tests :
      (r : Repository) (m : Mutation) → let (_, s) = keep r (delete_locked r m) in s.tests ≡ r.tests
  unfolding delete_locked
  delete_locked-tests r m = ground arith

  edit_locked-tests :
      (r : Repository) (m : Mutation) → let (_, s) = edit_locked o r m in s.tests ≡ r.tests
  unfolding edit_locked store_edit
  edit_locked-tests r m = ground arith

  -- What an accepted test mutation requires and does.
  pub record Admitted (r : Repository) (m : Mutation) (s : Repository) (current : Connection)
      (t : TestOperation) : Type 0 where
    pub found : current_at r (mutation_key m) m.expected_version ≡ ok current
    pub given : m.test ≡ some t
    pub valid : validate_test o t ≡ ok tt
    pub about : t.tested_uid ≡ current.uid
    pub by_actor : t.test_actor ≡ m.identity.actor_id
    pub room : limit_exceeded r t ≡ false
    pub after : s ≡ record r { tests = set_at t.operation_id t r.tests }

  pub test_locked-ok :
      (r : Repository) (m : Mutation) (result : MutationResult) (s : Repository)
      → test_locked o r m ≡ ok (result, s)
      → (current : Connection) × (t : TestOperation) × Admitted r m s current t
  unfolding test_locked
  test_locked-ok r m result s h =
      let (current, found, h₁) =
        >>=-passes (current_at r (mutation_key m) m.expected_version) _ h in
      let (t, given, h₂) = >>=-passes (required test_required m.test) _ h₁ in
      let (mismatch, h₃) = check-passes _ test_mismatch _ h₂ in
      let (room, after) = check-passes (limit_exceeded r t) test_limit_exceeded _ h₃ in
      (
        current,
        t,
        record {
          found = found;
          given = ground arith;
          valid = ground (arith, Result-cases (validate_test o t));
          about = ground (arith, text_eq_iff t.tested_uid current.uid);
          by_actor = ground (arith, text_eq_iff t.test_actor m.identity.actor_id);
          room = room;
          after = ground arith;
        },
      )

  -- The tests stay as they are, or a valid one that the limits have room for is admitted.
  abbrev pub Admits : Repository → Map Text TestOperation → Type 0
  Admits r after =
      (after ≡ r.tests)
      ⊎ ((t : TestOperation) × (validate_test o t ≡ ok tt)
          × (limit_exceeded r t ≡ false)
          × (after ≡ set_at t.operation_id t r.tests))

  test_locked-Admits :
      (r : Repository) (m : Mutation) → let (_, s) = keep r (test_locked o r m) in Admits r s.tests
  test_locked-Admits r m = elim (Result-cases (test_locked o r m)) [
    | inl ((result, s), done) ↦
        let (current, t, a) = test_locked-ok r m result s done in
        rw done (inr (t, a.valid, a.room, ap (λ (x : Repository). x.tests) a.after))
    | inr (e, failed) ↦ rw failed (inl refl)
  ]

  apply_locked-Admits :
      (k : MutationKind) (r : Repository) (m : Mutation)
      → let (_, s) = apply_locked o k r m in Admits r s.tests
  unfolding apply_locked
  apply_locked-Admits create_kind r m = inl (create_locked-tests r m)
  apply_locked-Admits update_kind r m = inl (edit_locked-tests r m)
  apply_locked-Admits rotate_kind r m = inl (edit_locked-tests r m)
  apply_locked-Admits enable_kind r m = inl (edit_locked-tests r m)
  apply_locked-Admits disable_kind r m = inl (edit_locked-tests r m)
  apply_locked-Admits delete_kind r m = inl (delete_locked-tests r m)
  apply_locked-Admits test_kind r m = test_locked-Admits r m
  apply_locked-Admits (unsupported_kind k) r m = inl refl

  pub apply-refused :
      (r : Repository) (m : Mutation) (e : Error)
      → validate_identity m.identity ≡ err e
      → apply o r m ≡ (err e, r)
  unfolding apply
  apply-refused r m e refused = rw (refused, apply) refl

  pub apply-known :
      (r : Repository) (m : Mutation) (known : Recorded)
      → validate_identity m.identity ≡ ok tt
      → at (idempotency_key m) r.idempotency ≡ some known
      → apply o r m ≡ (replay known m, r)
  unfolding apply
  apply-known r m known valid h = rw (valid, h, apply) refl

  pub apply-fresh :
      (r : Repository) (m : Mutation)
      → validate_identity m.identity ≡ ok tt
      → at (idempotency_key m) r.idempotency ≡ none
      → apply o r m ≡ remember m (apply_locked o m.kind r m)
  unfolding apply
  apply-fresh r m valid h = rw (valid, h, apply) refl

  -- A mutation is answered without a change, or carried out and remembered.
  pub apply-cases :
      (r : Repository) (m : Mutation)
      → ((result : Result Error MutationResult) × (apply o r m ≡ (result, r)))
        ⊎ ((validate_identity m.identity ≡ ok tt)
            × (at (idempotency_key m) r.idempotency ≡ none)
            × (apply o r m ≡ remember m (apply_locked o m.kind r m)))
  apply-cases r m = elim (Result-cases (validate_identity m.identity)) [
    | inl (u, valid) ↦ elim (Option-cases (at (idempotency_key m) r.idempotency)) [
      | inl fresh ↦ inr (valid, fresh, apply-fresh r m valid fresh)
      | inr (known, h) ↦ inl (replay known m, apply-known r m known valid h)
    ]
    | inr (e, refused) ↦ inl (err e, apply-refused r m e refused)
  ]

  remember-tests :
      (m : Mutation) (result : Result Error MutationResult) (s : Repository)
      → let (_, u) = remember m (result, s) in u.tests ≡ s.tests
  unfolding remember
  remember-tests m (ok result) s = refl
  remember-tests m (err e) s = refl

  pub apply-Admits : (r : Repository) (m : Mutation) → let (_, s) = apply o r m in Admits r s.tests
  apply-Admits r m = elim (apply-cases r m) [
    | inl (result, same) ↦
        subst (λ (x : Result Error MutationResult × Repository). Admits r x.1.tests) (sym same)
          (inl refl)
    | inr (valid, fresh, done) ↦
        let (result, s) = apply_locked o m.kind r m in
        subst (λ (x : Result Error MutationResult × Repository). Admits r x.1.tests) (sym done)
          (subst (Admits r) (sym (remember-tests m result s)) (apply_locked-Admits m.kind r m))
  ]
