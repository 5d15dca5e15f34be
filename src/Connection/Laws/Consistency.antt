-- ===== src/Connection/Laws/Consistency.antt =====
-- Runs of the in-memory repository in which every new connection gets a UID that is not in use.
use astra_sync.Prelude.{
  ℤ, Text, text_eq_refl, none, some, [], ◌∷◌, List, ◌≡◌, ◌⊎◌, inl, inr, refl, sym, subst, ap, arith,
  Result, ok, err, Result-cases, Map, text_key, int_key, at,
}
use astra_sync.Connection.Error.{Error}
use astra_sync.Connection.Settings.{Generation}
use astra_sync.Connection.Model.{Connection, validate_connection}
use astra_sync.Connection.Policy.{Outside}
use astra_sync.Connection.Mutation.{
  Mutation, MutationResult, MutationKind, create_kind, update_kind, rotate_kind, enable_kind,
  disable_kind, delete_kind, test_kind, unsupported_kind,
}
use astra_sync.Connection.Store.{
  Repository, resource_key, get, get_by_uid, indexed, set_reference_counts,
}
use astra_sync.Connection.Apply.{
  keep, apply, apply_locked, remember, create_locked, delete_locked, test_locked, edit_locked,
  checked_edit, edit_result, mutation_key, idempotency_key,
}
use astra_sync.Connection.Calls.{
  Call, apply_call, claim_call, complete_call, expire_call, references_call, perform, perform_all,
}
use astra_sync.Connection.Laws.Accepted.{create_locked-ok, delete_locked-ok, checked_edit-ok}
use astra_sync.Connection.Laws.Admission.{test_locked-ok, apply-cases}
use astra_sync.Connection.Laws.Frame.{Core, expire_tests-core, claim_tests-core, complete_test-core}
use astra_sync.Connection.Laws.Stored.{
  Sound, after_create-Sound, after_delete-Sound, store_edit-stores,
}

-- A mutation that is carried out now and creates a connection gives it a UID that is not in use.
abbrev pub FreshUid : MutationKind → Repository → Mutation → Type 0
FreshUid create_kind r m =
    at (idempotency_key m) r.idempotency ≡ none
    → (c : Connection) → m.candidate ≡ some c
    → at c.uid r.uid_index ≡ none
FreshUid _ r m = Unit {0}

abbrev pub IsFresh : Repository → Call → Type 0
IsFresh r (apply_call m) = FreshUid m.kind r m
IsFresh r _ = Unit {0}

abbrev Held : Type 0
Held = Map Text Connection × Map Text Text × Map Text (Map ℤ Generation)

-- What soundness is about.
abbrev held : Repository → Held
held r = (r.connections, r.uid_index, r.generations)

abbrev held_in : Core → Held
held_in (connections, index, generations, known) = (connections, index, generations)

Sound-held : (o : Outside) (r s : Repository) → held s ≡ held r → Sound o r → Sound o s
Sound-held o r s e sound key c h =
    let old = sound key c (ground (arith, e)) in
    record {
      valid = old.valid;
      keyed = old.keyed;
      in_index = ground (arith, e, old.in_index);
      known = old.known;
      has_known = ground (arith, e, old.has_known);
      recorded = old.recorded;
    }

module _ (o : Outside) where
  -- A mutation succeeds and keeps the repository sound, or fails and leaves it as it is.
  abbrev pub Settles : Repository → Result Error MutationResult × Repository → Type 0
  Settles r answer =
      ((result : MutationResult) × (s : Repository) × (answer ≡ (ok result, s)) × Sound o s)
      ⊎ ((e : Error) × (answer ≡ (err e, r)))

  create_locked-Settles :
      (r : Repository) (m : Mutation)
      → ((c : Connection) → m.candidate ≡ some c → at c.uid r.uid_index ≡ none)
      → Sound o r
      → Settles r (keep r (create_locked o r m))
  create_locked-Settles r m fresh sound = elim (Result-cases (create_locked o r m)) [
    | inl ((result, s), done) ↦
        let (c, created) = create_locked-ok o r m result s done in
        let key : mutation_key m ≡ resource_key c.tenant_id c.connection_name =
          ground (arith, created.tenant_matches, created.name_matches) in
        rw done (
          inl (
            result,
            s,
            refl,
            subst (Sound o) (sym created.after)
                (after_create-Sound o r m c created.valid key (fresh c created.given) sound),
          ))
    | inr (e, failed) ↦ rw failed (inr (e, refl))
  ]

  delete_locked-Settles :
      (r : Repository) (m : Mutation) → Sound o r → Settles r (keep r (delete_locked r m))
  delete_locked-Settles r m sound = elim (Result-cases (delete_locked r m)) [
    | inl ((result, s), done) ↦
        let (c, deleted) = delete_locked-ok r m result s done in
        rw done (
          inl (
            result,
            s,
            refl,
            subst (Sound o) (sym deleted.after)
                (after_delete-Sound o r m c deleted.current.found sound),
          ))
    | inr (e, failed) ↦ rw failed (inr (e, refl))
  ]

  test_locked-Settles :
      (r : Repository) (m : Mutation) → Sound o r → Settles r (keep r (test_locked o r m))
  test_locked-Settles r m sound = elim (Result-cases (test_locked o r m)) [
    | inl ((result, s), done) ↦
        let (c, t, admitted) = test_locked-ok o r m result s done in
        rw done (inl (result, s, refl, Sound-held o r s (ap held admitted.after) sound))
    | inr (e, failed) ↦ rw failed (inr (e, refl))
  ]

  edit_locked-Settles : (r : Repository) (m : Mutation) → Sound o r → Settles r (edit_locked o r m)
  unfolding edit_locked
  edit_locked-Settles r m sound = elim (Result-cases (checked_edit o r m)) [
    | inl ((c, next), done) ↦
        let (s, stored, kept, _) =
          store_edit-stores o r m c next (checked_edit-ok o r m c next done) sound in
        inl (edit_result c next, s, rw (done, edit_locked) stored, kept)
    | inr (e, failed) ↦ inr (e, rw (failed, edit_locked) refl)
  ]

  apply_locked-Settles :
      (k : MutationKind) (r : Repository) (m : Mutation)
      → at (idempotency_key m) r.idempotency ≡ none
      → FreshUid k r m
      → Sound o r
      → Settles r (apply_locked o k r m)
  unfolding apply_locked
  apply_locked-Settles create_kind r m new fresh sound = create_locked-Settles r m (fresh new) sound
  apply_locked-Settles update_kind r m new fresh sound = edit_locked-Settles r m sound
  apply_locked-Settles rotate_kind r m new fresh sound = edit_locked-Settles r m sound
  apply_locked-Settles enable_kind r m new fresh sound = edit_locked-Settles r m sound
  apply_locked-Settles disable_kind r m new fresh sound = edit_locked-Settles r m sound
  apply_locked-Settles delete_kind r m new fresh sound = delete_locked-Settles r m sound
  apply_locked-Settles test_kind r m new fresh sound = test_locked-Settles r m sound
  apply_locked-Settles (unsupported_kind k) r m new fresh sound = inr (_, refl)

  remember-Settles :
      (r : Repository) (m : Mutation) (answer : Result Error MutationResult × Repository)
      → Settles r answer
      → Settles r (remember m answer)
  unfolding remember
  remember-Settles r m answer (inl (result, s, done, sound)) =
      subst (λ x. Settles r (remember m x)) (sym done)
        (inl (result, _, refl, Sound-held o s _ refl sound))
  remember-Settles r m answer (inr (e, failed)) =
      subst (λ x. Settles r (remember m x)) (sym failed) (inr (e, refl))

  -- On a sound repository, a mutation whose new UID is not in use fails and changes nothing, or
  -- succeeds and leaves the repository sound.
  pub apply-Settles :
      (r : Repository) (m : Mutation) → FreshUid m.kind r m → Sound o r → Settles r (apply o r m)
  apply-Settles r m fresh sound = elim (apply-cases o r m) [
    | inl (ok result, same) ↦ inl (result, r, same, sound)
    | inl (err e, same) ↦ inr (e, same)
    | inr (valid, new, done) ↦ subst (Settles r) (sym done) (
        remember-Settles r m (apply_locked o m.kind r m)
          (apply_locked-Settles m.kind r m new fresh sound))
  ]

  pub perform-Sound :
      (r : Repository) (c : Call) → IsFresh r c → Sound o r → Sound o (perform o r c)
  unfolding perform set_reference_counts
  perform-Sound r (apply_call m) fresh sound = elim (apply-Settles r m fresh sound) [
    | inl (result, s, done, after) ↦
        subst (λ (x : Result Error MutationResult × Repository). Sound o x.1) (sym done) after
    | inr (e, failed) ↦
        subst (λ (x : Result Error MutationResult × Repository). Sound o x.1) (sym failed) sound
  ]
  perform-Sound r (claim_call e l d now) fresh sound =
      Sound-held o r _ (ap held_in (claim_tests-core o r e l d now)) sound
  perform-Sound r (complete_call i e c now) fresh sound =
      Sound-held o r _ (ap held_in (complete_test-core o r i e c now)) sound
  perform-Sound r (expire_call now) fresh sound =
      Sound-held o r _ (ap held_in (expire_tests-core r now)) sound
  perform-Sound r (references_call uid counts) fresh sound = Sound-held o r _ refl sound

  -- Each new UID of a run is not in use when it is given.
  abbrev pub AllFresh : Repository → List Call → Type 0
  AllFresh r [] = Unit
  AllFresh r (c ∷ cs) = IsFresh r c × AllFresh (perform o r c) cs

  pub perform_all-Sound :
      (r : Repository) (cs : List Call) → AllFresh r cs → Sound o r → Sound o (perform_all o r cs)
  unfolding perform_all
  perform_all-Sound r [] fresh sound = sound
  perform_all-Sound r (c ∷ cs) fresh sound =
      perform_all-Sound (perform o r c) cs fresh.1 (perform-Sound r c fresh.0 sound)

  -- After any run of a sound repository in which each new connection gets a UID that is not in use:
  -- what `Get` finds is valid and has the tenant and the name that it was asked for, and `GetByUID`
  -- finds the same connection under its UID.
  pub perform_all-finds :
      (r : Repository) (cs : List Call)
      → AllFresh r cs
      → Sound o r
      → (tenant name : Text) (c : Connection) → get (perform_all o r cs) tenant name ≡ ok c
      → (validate_connection o.is_uuid c ≡ ok tt)
        × (resource_key tenant name ≡ resource_key c.tenant_id c.connection_name)
        × (get_by_uid (perform_all o r cs) c.tenant_id c.uid ≡ ok c)
  unfolding get get_by_uid indexed
  perform_all-finds r cs fresh sound tenant name c h =
      let u = perform_all o r cs in
      let found : at (resource_key tenant name) u.connections ≡ some c = ground arith in
      let stored = perform_all-Sound r cs fresh sound (resource_key tenant name) c found in
      (stored.valid, stored.keyed, ground (arith, stored.in_index, found, text_eq_refl c.tenant_id))
