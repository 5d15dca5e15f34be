-- ===== src/Connection/Laws/Bounds.antt =====
-- Every call of the in-memory repository keeps the limits of active tests.
use astra_sync.Prelude.{
  ℤ, is_positive, Text, false, [], ◌∷◌, List, ◌≡◌, inl, inr, refl, sym, subst, arith, Bool-cases,
  Result, ok, err,
}
use astra_sync.Job.Status.{Time}
use astra_sync.Connection.Error.{Error}
use astra_sync.Connection.Policy.{Outside}
use astra_sync.Connection.Operation.{
  TestOperation, TestWork, is_active_state, Completion, validate_completion,
}
use astra_sync.Connection.Mutation.{Mutation}
use astra_sync.Connection.Store.{Repository, set_reference_counts, magnitude}
use astra_sync.Connection.Apply.{apply}
use astra_sync.Connection.Expiry.{expire_locked, expire_tests}
use astra_sync.Connection.Claims.{
  chosen, claim_each, counted, claim_tests, complete_with, complete_test,
}
use astra_sync.Connection.Calls.{
  Call, apply_call, claim_call, complete_call, expire_call, references_call, perform, perform_all,
}
use astra_sync.Connection.Laws.ClaimCases.{claim_tests-cases, complete_test-cases}
use astra_sync.Connection.Laws.Admission.{apply-Admits}
use astra_sync.Connection.Laws.Limits.{chosen-active, claim_each-Quotas}
use astra_sync.Connection.Laws.Quotas.{Quotas, admitted-Quotas, ended-Quotas, swept-Quotas}

expire_locked-Quotas :
    (now : Time) (r : Repository)
    → Quotas r.tests
    → let (_, s) = expire_locked now r in Quotas s.tests
unfolding expire_locked
expire_locked-Quotas now r q = swept-Quotas now r.tests q

expire_tests-Quotas :
    (r : Repository) (now : Time)
    → Quotas r.tests
    → let (_, s) = expire_tests r now in Quotas s.tests
unfolding expire_tests
expire_tests-Quotas r now q =
    let (count, s) = expire_locked now r in
    elim (Bool-cases (is_positive count)) [
      | inl some_ended ↦ rw some_ended (expire_locked-Quotas now r q)
      | inr none_ended ↦ rw none_ended (expire_locked-Quotas now r q)
    ]

counted-tests :
    (result : Result Error (List TestWork)) (s : Repository)
    → let (_, u) = counted (result, s) in u.tests ≡ s.tests
counted-tests (ok []) s = refl
counted-tests (ok (w ∷ ws)) s = refl
counted-tests (err e) s = refl

module _ (o : Outside) where
  apply-Quotas :
      (r : Repository) (m : Mutation) → Quotas r.tests → let (_, s) = apply o r m in Quotas s.tests
  apply-Quotas r m q = elim (apply-Admits o r m) [
    | inl same ↦ subst Quotas (sym same) q
    | inr (t, _, room, after) ↦ subst Quotas (sym after) (admitted-Quotas r t room q)
  ]

  claim_tests-Quotas :
      (r : Repository) (executor : Text) (limit lease : ℤ) (now : Time)
      → Quotas r.tests
      → let (_, s) = claim_tests o r executor limit lease now in Quotas s.tests
  claim_tests-Quotas r executor limit lease now q =
      let (_, s) = expire_locked now r in
      let swept_q = expire_locked-Quotas now r q in
      let work = claim_each o executor (magnitude lease) now s (chosen now s (magnitude limit)) in
      let claimed : Quotas work.1.tests =
        claim_each-Quotas o executor (magnitude lease) now s (chosen now s (magnitude limit))
          (chosen-active now s (magnitude limit) swept_q.distinct) swept_q in
      elim (claim_tests-cases o r executor limit lease now) [
        | inl refused ↦
            subst (λ (x : Result Error (List TestWork) × Repository). Quotas x.1.tests)
              (sym refused) q
        | inr (_, done) ↦
            subst (λ (x : Result Error (List TestWork) × Repository). Quotas x.1.tests) (sym done)
              (subst Quotas (sym (counted-tests work.0 work.1)) claimed)
      ]

  finished-inactive :
      (c : Completion) → validate_completion c ≡ ok tt → is_active_state c.final_state ≡ false
  unfolding validate_completion
  finished-inactive c h = ground arith

  complete_test-Quotas :
      (r : Repository) (id executor : Text) (c : Completion) (now : Time)
      → Quotas r.tests
      → let (_, s) = complete_test o r id executor c now in Quotas s.tests
  unfolding complete_with
  complete_test-Quotas r id executor c now q = elim (complete_test-cases o r id executor c now) [
    | inl (e, refused) ↦
        subst (λ (x : Result Error TestOperation × Repository). Quotas x.1.tests) (sym refused) q
    | inr (t, done) ↦
        subst (λ (x : Result Error TestOperation × Repository). Quotas x.1.tests) (sym done.result)
          (ended-Quotas r.tests id (complete_with now c t) (finished-inactive c done.final) q)
  ]

  perform-Quotas : (r : Repository) (c : Call) → Quotas r.tests → Quotas (perform o r c).tests
  unfolding perform set_reference_counts
  perform-Quotas r (apply_call m) q = apply-Quotas r m q
  perform-Quotas r (claim_call e l d now) q = claim_tests-Quotas r e l d now q
  perform-Quotas r (complete_call i e c now) q = complete_test-Quotas r i e c now q
  perform-Quotas r (expire_call now) q = expire_tests-Quotas r now q
  perform-Quotas r (references_call uid counts) q = q

  -- Whatever calls the repository gets, in whatever order and with whatever arguments, from a state
  -- within the limits on it never holds more than 8 active tests of a tenant, more than 2 of an actor
  -- in a tenant, or more than one of a connection in a tenant.
  pub perform_all-Quotas :
      (r : Repository) (cs : List Call) → Quotas r.tests → Quotas (perform_all o r cs).tests
  unfolding perform_all
  perform_all-Quotas r [] q = q
  perform_all-Quotas r (c ∷ cs) q = perform_all-Quotas (perform o r c) cs (perform-Quotas r c q)
