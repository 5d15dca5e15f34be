-- ===== src/Connection/Laws/ClaimCases.antt =====
-- The cases of `ClaimTests` and `CompleteTest`.
use astra_sync.Prelude.{
  ℤ, Text, true, false, ◌||◌, is_blank, length, ltb, Option-cases, Bool-cases, some, ◌∷◌, [], ◌++◌,
  ◌≡◌, ◌⊎◌, inl, inr, refl, arith, ok, err, Result-cases, text_key, at, set_at, delete_at,
}
use astra_sync.Job.Status.{Time}
use astra_sync.Connection.Error.{Error, claim_invalid, completion_invalid, test_lease_lost}
use astra_sync.Connection.Policy.{Outside}
use astra_sync.Connection.Operation.{
  TestOperation, Completion, validate_completion, validate_test, is_err, maximum_executor_id,
}
use astra_sync.Connection.Store.{Repository, magnitude}
use astra_sync.Connection.Expiry.{expire_locked, next_revision}
use astra_sync.Connection.Claims.{
  chosen, claim_each, claim_refused, claim_tests, counted, complete_with, finish_test, holds_lease,
  complete_test, complete_event,
}

-- The repository after a completion.
abbrev pub completed : Repository → Text → Text → TestOperation → Repository
completed r id executor t = next_revision (record r {
  tests = set_at id t r.tests;
  claims = delete_at id r.claims;
  audits = r.audits ++ complete_event id executor t ∷ [];
})

module _ (o : Outside) where
  pub claim_tests-cases :
      (r : Repository) (executor : Text) (limit lease : ℤ) (now : Time)
      → (claim_tests o r executor limit lease now ≡ (err claim_invalid, r))
        ⊎ ((claim_refused executor limit lease ≡ false)
            × (let (_, s) = expire_locked now r in
                claim_tests o r executor limit lease now
                ≡ counted (
                    claim_each o executor
                      (magnitude lease)
                      now
                      s
                      (chosen now s (magnitude limit)))))
  unfolding claim_tests
  claim_tests-cases r executor limit lease now =
      elim (Bool-cases (claim_refused executor limit lease)) [
        | inl refused ↦ inl (rw (refused, claim_tests) refl)
        | inr accepted ↦ inr (accepted, rw (accepted, claim_tests) refl)
      ]

  -- A completion that is accepted: the test runs, the executor holds the lease, and what comes out
  -- is valid.
  pub record Completes (r : Repository) (id executor : Text) (c : Completion) (now : Time)
      (t : TestOperation) : Type 0 where
    pub final : validate_completion c ≡ ok tt
    pub found : at id r.tests ≡ some t
    pub leased : holds_lease r id executor now t ≡ true
    pub valid : validate_test o (complete_with now c t) ≡ ok tt
    pub result :
        complete_test o r id executor c now
        ≡ (ok (complete_with now c t), completed r id executor (complete_with now c t))

  pub complete_test-cases :
      (r : Repository) (id executor : Text) (c : Completion) (now : Time)
      → ((e : Error) × (complete_test o r id executor c now ≡ (err e, r)))
        ⊎ ((t : TestOperation) × Completes r id executor c now t)
  unfolding complete_test finish_test
  complete_test-cases r id executor c now =
      elim (Bool-cases (
        is_err (validate_completion c)
        || (is_blank executor || ltb maximum_executor_id (length executor)))) [
          | inl refused ↦ inl (completion_invalid, rw (refused, complete_test) refl)
          | inr accepted ↦ elim (Option-cases (at id r.tests)) [
            | inl missing ↦ inl (test_lease_lost, rw (accepted, missing, complete_test) refl)
            | inr (t, found) ↦ elim (Bool-cases (holds_lease r id executor now t)) [
              | inr lost ↦ inl (test_lease_lost, rw (accepted, found, lost, complete_test) refl)
              | inl leased ↦ elim (Result-cases (validate_test o (complete_with now c t))) [
                | inr (e, invalid) ↦
                    inl (e, rw (accepted, found, leased, invalid, complete_test, finish_test) refl)
                | inl (u, valid) ↦ inr (
                  t,
                  record {
                    final = ground (arith, Result-cases (validate_completion c));
                    found = found;
                    leased = leased;
                    valid = valid;
                    result = rw (accepted, found, leased, valid, complete_test, finish_test) refl;
                  },
                )
              ]
            ]
          ]
        ]
