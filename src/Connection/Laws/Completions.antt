-- ===== src/Connection/Laws/Completions.antt =====
-- `CompleteTest`: who may complete a test, and how often.
use astra_sync.Prelude.{
  Text, text_eq_iff, text_eq_refl, true, false, some, ◌≡◌, ◌<◌, inl, inr, refl, sym, subst, ◌∙◌,
  arith, Result, ok, err, text_key, at, at-set_at, same_iff,
}
use astra_sync.Job.Status.{Time}
use astra_sync.Connection.Error.{Error}
use astra_sync.Connection.Policy.{Outside}
use astra_sync.Connection.Operation.{
  TestOperation, Completion, is_running, validate_completion, validate_test,
}
use astra_sync.Connection.Store.{Repository, get_test}
use astra_sync.Connection.Claims.{claim_of, complete_test, complete_with, holds_lease}
use astra_sync.Connection.Laws.ClaimCases.{Completes, completed, complete_test-cases}

-- What a completion that is accepted requires and does: the executor holds the lease of a running test
-- before its deadline, and the valid result is stored.
pub record Finishes (o : Outside) (r : Repository) (id executor : Text) (c : Completion)
    (now : Time) (t : TestOperation) (s : Repository) : Type 0 where
  pub before : TestOperation
  pub found : at id r.tests ≡ some before
  pub was_running : is_running before.test_state ≡ true
  pub holder : (claim_of r id).executor_id ≡ executor
  pub lease_left : now < (claim_of r id).lease_expires_at
  pub in_time : now < before.deadline_at
  pub becomes : t ≡ complete_with now c before
  pub valid : validate_test o t ≡ ok tt
  pub stored : get_test s t.test_tenant id ≡ ok t

module _ (o : Outside) where
  finished-stopped :
      (c : Completion) → validate_completion c ≡ ok tt → is_running c.final_state ≡ false
  unfolding validate_completion
  finished-stopped c h = ground arith

  completed-at :
      (r : Repository) (id executor : Text) (t : TestOperation)
      → at id (completed r id executor t).tests ≡ some t
  completed-at r id executor t = ground (arith, at-set_at id id t r.tests, same_iff id id)

  Completes-Finishes :
      (r : Repository) (id executor : Text) (c : Completion) (now : Time) (before : TestOperation)
      → Completes o r id executor c now before
      → Finishes o r id executor c now
          (complete_with now c before)
          (completed r id executor (complete_with now c before))
  unfolding holds_lease get_test complete_with
  Completes-Finishes r id executor c now before done = record {
    before = before;
    found = done.found;
    was_running = ground (arith, done.leased);
    holder = ground (arith, done.leased, text_eq_iff (claim_of r id).executor_id executor);
    lease_left = ground (arith, done.leased);
    in_time = ground (arith, done.leased);
    becomes = refl;
    valid = done.valid;
    stored = ground (
      arith,
      completed-at r id executor (complete_with now c before),
      text_eq_refl before.test_tenant,
    );
  }

  stopped-refuses :
      (s : Repository) (id : Text) (t : TestOperation)
      → at id s.tests ≡ some t
      → is_running t.test_state ≡ false
      → (executor : Text) (c : Completion) (now : Time)
      → (e : Error) × (complete_test o s id executor c now ≡ (err e, s))
  unfolding holds_lease
  stopped-refuses s id t found stopped executor c now =
      elim (complete_test-cases o s id executor c now) [
        | inl refused ↦ refused
        | inr (u, done) ↦ absurd (ground (arith, done.found, done.leased))
      ]

  abbrev FinishesOnce :
      Repository
      → Text
      → Text
      → Completion
      → Time
      → Result Error TestOperation × Repository
      → Type 0
  FinishesOnce r id executor c now (ok t, s) =
      Finishes o r id executor c now t s
      × ((other : Text) (d : Completion) (later : Time)
          → (e : Error) × (complete_test o s id other d later ≡ (err e, s)))
  FinishesOnce r id executor c now (err e, s) = Unit {0}

  -- A test is completed by the executor that holds its lease, while the lease and the deadline are
  -- not over and the test runs; its result is valid and is what GetTest returns then; and it is
  -- completed once: whoever tries again fails and changes nothing.
  pub complete_test-Finishes :
      (r : Repository) (id executor : Text) (c : Completion) (now : Time) (t : TestOperation)
      (s : Repository)
      → complete_test o r id executor c now ≡ (ok t, s)
      → Finishes o r id executor c now t s
        × ((other : Text) (d : Completion) (later : Time)
            → (e : Error) × (complete_test o s id other d later ≡ (err e, s)))
  unfolding complete_with
  complete_test-Finishes r id executor c now t s h =
      elim (complete_test-cases o r id executor c now) [
        | inl (e, refused) ↦ absurd (ground (arith, refused))
        | inr (before, done) ↦ subst (FinishesOnce r id executor c now) (sym done.result ∙ h) (
          Completes-Finishes r id executor c now before done,
          stopped-refuses (completed r id executor (complete_with now c before)) id
              (complete_with now c before) (completed-at r id executor (complete_with now c before))
              (finished-stopped c done.final),
        )
      ]
