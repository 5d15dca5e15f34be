-- ===== src/Connection/Laws/Frame.antt =====
-- What the calls on tests leave alone: the connections, their index and generations, and what is
-- remembered of mutations.
use astra_sync.Prelude.{
  ℕ, ℤ, is_positive, Text, [], ◌∷◌, List, ◌≡◌, inl, inr, refl, ap, ◌∙◌, arith, Bool-cases, Result,
  ok, err, Map,
}
use astra_sync.Job.Status.{Time}
use astra_sync.Connection.Error.{Error}
use astra_sync.Connection.Settings.{Generation}
use astra_sync.Connection.Model.{Connection}
use astra_sync.Connection.Policy.{Outside}
use astra_sync.Connection.Operation.{TestOperation, TestWork, Completion}
use astra_sync.Connection.Store.{Repository, Recorded, magnitude}
use astra_sync.Connection.Expiry.{expire_locked, expire_tests}
use astra_sync.Connection.Claims.{
  claim_test, claim_key, claim_each, chosen, counted, claim_tests, complete_test,
}
use astra_sync.Connection.Laws.ClaimCases.{claim_tests-cases, complete_test-cases}

abbrev pub Core : Type 0
Core = Map Text Connection × Map Text Text × Map Text (Map ℤ Generation) × Map Text Recorded

abbrev pub core : Repository → Core
core r = (r.connections, r.uid_index, r.generations, r.idempotency)

expire_locked-core :
    (now : Time) (r : Repository) → let (_, s) = expire_locked now r in core s ≡ core r
unfolding expire_locked
expire_locked-core now r = refl

pub expire_tests-core :
    (r : Repository) (now : Time) → let (_, s) = expire_tests r now in core s ≡ core r
unfolding expire_tests
expire_tests-core r now =
    let (count, s) = expire_locked now r in
    elim (Bool-cases (is_positive count)) [
      | inl some_ended ↦ rw some_ended (expire_locked-core now r)
      | inr none_ended ↦ rw none_ended (expire_locked-core now r)
    ]

counted-core :
    (result : Result Error (List TestWork)) (s : Repository)
    → let (_, u) = counted (result, s) in core u ≡ core s
counted-core (ok []) s = refl
counted-core (ok (w ∷ ws)) s = refl
counted-core (err e) s = refl

module _ (o : Outside) where
  claim_key-core :
      (executor : Text) (lease : ℕ) (now : Time) (r : Repository) (id : Text)
      → let (_, s) = claim_key o executor lease now r id in core s ≡ core r
  unfolding claim_key claim_test
  claim_key-core executor lease now r id = ground arith

  claim_each-core :
      (executor : Text) (lease : ℕ) (now : Time) (r : Repository) (ids : List Text)
      → let (_, s) = claim_each o executor lease now r ids in core s ≡ core r
  unfolding claim_each
  claim_each-core executor lease now r [] = refl
  claim_each-core executor lease now r (id ∷ ids) =
      let (_, s) = claim_key o executor lease now r id in
      ground
        (arith, claim_key-core executor lease now r id, claim_each-core executor lease now s ids)

  pub claim_tests-core :
      (r : Repository) (executor : Text) (limit lease : ℤ) (now : Time)
      → let (_, s) = claim_tests o r executor limit lease now in core s ≡ core r
  claim_tests-core r executor limit lease now =
      let (_, s) = expire_locked now r in
      let (result, u) =
        claim_each o executor (magnitude lease) now s (chosen now s (magnitude limit)) in
      elim (claim_tests-cases o r executor limit lease now) [
        | inl refused ↦ ap (λ (x : Result Error (List TestWork) × Repository). core x.1) refused
        | inr (_, done) ↦
            ap (λ (x : Result Error (List TestWork) × Repository). core x.1) done
            ∙ counted-core result u
            ∙ claim_each-core executor (magnitude lease) now s (chosen now s (magnitude limit))
            ∙ expire_locked-core now r
      ]

  pub complete_test-core :
      (r : Repository) (id executor : Text) (c : Completion) (now : Time)
      → let (_, s) = complete_test o r id executor c now in core s ≡ core r
  complete_test-core r id executor c now = elim (complete_test-cases o r id executor c now) [
    | inl (e, refused) ↦ ap (λ (x : Result Error TestOperation × Repository). core x.1) refused
    | inr (t, done) ↦ ap (λ (x : Result Error TestOperation × Repository). core x.1) done.result
  ]
