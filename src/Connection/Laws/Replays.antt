-- ===== src/Connection/Laws/Replays.antt =====
-- A mutation that is sent again.
use astra_sync.Prelude.{
  Text, text_eq_iff, text_eq_refl, Option, none, some, [], ◌∷◌, List, ◌≡◌, ◌≢◌, inl, inr, refl, sym,
  subst, ap, ◌∙◌, arith, Result, ok, err, Result-cases, Option-cases, text_key, at, same, same_iff,
  at-set_at,
}
use astra_sync.Connection.Error.{Error, idempotency_reused}
use astra_sync.Connection.Policy.{Outside}
use astra_sync.Connection.Mutation.{
  Mutation, MutationResult, MutationKind, create_kind, update_kind, rotate_kind, enable_kind,
  disable_kind, delete_kind, test_kind, unsupported_kind, replayed, validate_identity,
}
use astra_sync.Connection.Store.{Repository, Recorded, set_reference_counts}
use astra_sync.Connection.Apply.{
  apply, apply_locked, remember, replay, create_locked, delete_locked, test_locked, edit_locked,
  store_edit, idempotency_key,
}
use astra_sync.Connection.Calls.{
  Call, apply_call, claim_call, complete_call, expire_call, references_call, perform, perform_all,
}
use astra_sync.Connection.Laws.Admission.{apply-cases, apply-refused, apply-known, apply-fresh}
use astra_sync.Connection.Laws.Frame.{Core, expire_tests-core, claim_tests-core, complete_test-core}

remember-keeps :
    (m : Mutation) (result : Result Error MutationResult) (s : Repository) (key : Text)
    (known : Recorded)
    → at key s.idempotency ≡ some known
    → at (idempotency_key m) s.idempotency ≡ none
    → let (_, u) = remember m (result, s) in at key u.idempotency ≡ some known
unfolding remember
remember-keeps m (err e) s key known h fresh = h
remember-keeps m (ok result) s key known h fresh = ground (
  arith,
  same_iff (idempotency_key m) key,
  at-set_at (idempotency_key m) key (record { digest = m.identity.request_digest; result = result })
      s.idempotency,
)

remember-records :
    (m : Mutation) (answer : Result Error MutationResult) (t : Repository) (result : MutationResult)
    (s : Repository)
    → remember m (answer, t) ≡ (ok result, s)
    → (known : Recorded) × (at (idempotency_key m) s.idempotency ≡ some known)
      × (replay known m ≡ ok (record result { outcome = replayed }))
unfolding remember replay
remember-records m (err e) t result s h = absurd (ground arith)
remember-records m (ok given) t result s h =
    let known : Recorded = record { digest = m.identity.request_digest; result = given } in
    (
      known,
      ground (
        arith,
        same_iff (idempotency_key m) (idempotency_key m),
        at-set_at (idempotency_key m) (idempotency_key m) known t.idempotency,
      ),
      ground (arith, text_eq_refl m.identity.request_digest),
    )

replay-again :
    (known : Recorded) (m : Mutation) (result : MutationResult)
    → replay known m ≡ ok result
    → replay known m ≡ ok (record result { outcome = replayed })
unfolding replay
replay-again known m result h = ground arith

replay-other :
    (known : Recorded) (m other : Mutation) (result : MutationResult)
    → replay known m ≡ ok result
    → other.identity.request_digest ≢ m.identity.request_digest
    → replay known other ≡ err idempotency_reused
unfolding replay
replay-other known m other result again differs = ground (
  arith,
  text_eq_iff known.digest m.identity.request_digest,
  text_eq_iff known.digest other.identity.request_digest,
)

-- The part of what is remembered of mutations.
abbrev recorded : Text → Core → Option Recorded
recorded key (_, _, _, known) = at key known

module _ (o : Outside) where
  apply_locked-idempotency :
      (k : MutationKind) (r : Repository) (m : Mutation)
      → let (_, s) = apply_locked o k r m in s.idempotency ≡ r.idempotency
  unfolding apply_locked create_locked delete_locked test_locked edit_locked store_edit
  apply_locked-idempotency create_kind r m = ground arith
  apply_locked-idempotency update_kind r m = ground arith
  apply_locked-idempotency rotate_kind r m = ground arith
  apply_locked-idempotency enable_kind r m = ground arith
  apply_locked-idempotency disable_kind r m = ground arith
  apply_locked-idempotency delete_kind r m = ground arith
  apply_locked-idempotency test_kind r m = ground arith
  apply_locked-idempotency (unsupported_kind k) r m = refl

  -- What a mutation was answered stays on record.
  apply-idempotency :
      (r : Repository) (m : Mutation) (key : Text) (known : Recorded)
      → at key r.idempotency ≡ some known
      → let (_, s) = apply o r m in at key s.idempotency ≡ some known
  apply-idempotency r m key known h = elim (apply-cases o r m) [
    | inl (result, same) ↦ ground arith
    | inr (valid, fresh, done) ↦
        let (result, s) = apply_locked o m.kind r m in
        let kept = apply_locked-idempotency m.kind r m in
        subst
          (λ (x : Result Error MutationResult × Repository). at key x.1.idempotency ≡ some known)
          (sym done)
          (remember-keeps m result s key known (ap (at key) kept ∙ h)
            (ap (at (idempotency_key m)) kept ∙ fresh))
  ]

  perform-idempotency :
      (r : Repository) (c : Call) (key : Text) (known : Recorded)
      → at key r.idempotency ≡ some known
      → at key (perform o r c).idempotency ≡ some known
  unfolding perform set_reference_counts
  perform-idempotency r (apply_call m) key known h = apply-idempotency r m key known h
  perform-idempotency r (claim_call e l d now) key known h =
      ap (recorded key) (claim_tests-core o r e l d now) ∙ h
  perform-idempotency r (complete_call i e c now) key known h =
      ap (recorded key) (complete_test-core o r i e c now) ∙ h
  perform-idempotency r (expire_call now) key known h =
      ap (recorded key) (expire_tests-core r now) ∙ h
  perform-idempotency r (references_call uid counts) key known h = h

  perform_all-idempotency :
      (r : Repository) (cs : List Call) (key : Text) (known : Recorded)
      → at key r.idempotency ≡ some known
      → at key (perform_all o r cs).idempotency ≡ some known
  unfolding perform_all
  perform_all-idempotency r [] key known h = h
  perform_all-idempotency r (c ∷ cs) key known h =
      perform_all-idempotency (perform o r c) cs key known (perform-idempotency r c key known h)

  -- The record of a mutation that succeeded.
  apply-remembers :
      (r : Repository) (m : Mutation) (result : MutationResult) (s : Repository)
      → apply o r m ≡ (ok result, s)
      → (validate_identity m.identity ≡ ok tt)
        × (known : Recorded) × (at (idempotency_key m) s.idempotency ≡ some known)
        × (replay known m ≡ ok (record result { outcome = replayed }))
  apply-remembers r m result s h = elim (Result-cases (validate_identity m.identity)) [
    | inl (u, valid) ↦ elim (Option-cases (at (idempotency_key m) r.idempotency)) [
      | inl fresh ↦
          let (answer, t) = apply_locked o m.kind r m in
          let (known, found, again) =
            remember-records m answer t result s (sym (apply-fresh o r m valid fresh) ∙ h) in
          (valid, known, found, again)
      | inr (known, found) ↦
          let answered = sym (apply-known o r m known valid found) ∙ h in
          let kept : r ≡ s = ap (λ (x : Result Error MutationResult × Repository). x.1) answered in
          (
            valid,
            known,
            ap (λ (x : Repository). at (idempotency_key m) x.idempotency) (sym kept) ∙ found,
            replay-again known m result
                (ap (λ (x : Result Error MutationResult × Repository). x.0) answered),
          )
    ]
    | inr (e, refused) ↦ absurd (ground (arith, apply-refused o r m e refused))
  ]

  -- However the repository is used in between, a mutation that succeeded and is sent again is
  -- answered with the first result, marked as replayed, and changes nothing; another request under
  -- the same tenant, actor, method and key is refused, if its identity is valid.
  pub perform_all-replays :
      (r : Repository) (m : Mutation) (result : MutationResult) (s : Repository) (cs : List Call)
      → apply o r m ≡ (ok result, s)
      → let u = perform_all o s cs in
        (apply o u m ≡ (ok (record result { outcome = replayed }), u))
        × ((other : Mutation)
            → idempotency_key other ≡ idempotency_key m
            → validate_identity other.identity ≡ ok tt
            → other.identity.request_digest ≢ m.identity.request_digest
            → apply o u other ≡ (err idempotency_reused, u))
  perform_all-replays r m result s cs h =
      let (valid, known, found, again) = apply-remembers r m result s h in
      let u = perform_all o s cs in
      let kept = perform_all-idempotency s cs (idempotency_key m) known found in
      (
        apply-known o u m known valid kept ∙ ap (λ (x : Result Error MutationResult). (x, u)) again,
        λ other key valid_other differs.
            apply-known o u other known valid_other
              (ap (λ (k : Text). at k u.idempotency) key ∙ kept)
            ∙ ap (λ (x : Result Error MutationResult). (x, u))
                (replay-other known m other (record result { outcome = replayed }) again differs),
      )
