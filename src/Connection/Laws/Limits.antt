-- ===== src/Connection/Laws/Limits.antt =====
-- `ClaimTests` of the in-memory repository keeps the limits of active tests.
use astra_sync.Prelude.{
  ℕ, Text, true, none, some, [], ◌∷◌, List, ◌≡◌, ◌⊎◌, inl, inr, refl, sym, subst, arith, Bool-cases,
  Map, text_key, at, set_at, same, same_iff, at-set_at, DistinctKeys, set_at-DistinctKeys, All,
  take-All, map-All, sort_by-All, sort_by,
}
use astra_sync.Job.Status.{Time}
use astra_sync.Connection.Policy.{Outside}
use astra_sync.Connection.Operation.{TestOperation, is_active_state}
use astra_sync.Connection.Store.{Repository}
use astra_sync.Connection.Claims.{
  claimable, claimable_tests, older, keys_of, chosen, start_test, claim_test, claim_key, claim_each,
}
use astra_sync.Connection.Laws.Quotas.{
  Scope, tenant_scope, actor_scope, connection_scope, selects, Quotas,
}
use astra_sync.Connection.Laws.Counts.{count-replaced}

-- The key of an active test.
abbrev IsActiveKey : Map Text TestOperation → Text → Type 0
IsActiveKey m id = (t : TestOperation) × (at id m ≡ some t) × (is_active_state t.test_state ≡ true)

at-tail :
    (i id : Text) (t u : TestOperation) (m : Map Text TestOperation)
    → at i m ≡ none
    → at id m ≡ some u
    → at id ((i, t) ∷ m) ≡ some u
unfolding at
at-tail i id t u m d h = ground (arith, same_iff i id)

at-head : (i : Text) (t : TestOperation) (m : Map Text TestOperation) → at i ((i, t) ∷ m) ≡ some t
unfolding at
at-head i t m = ground (arith, same_iff i i)

claimable-active :
    (now : Time) (r : Repository) (id : Text) (t : TestOperation)
    → claimable now r id t ≡ true
    → is_active_state t.test_state ≡ true
unfolding claimable
claimable-active now r id t h = ground arith

abbrev IsActiveEntry : Map Text TestOperation → Text × TestOperation → Type 0
IsActiveEntry m e = (at e.0 m ≡ some e.1) × (is_active_state e.1.test_state ≡ true)

claimable_tests-active :
    (now : Time) (r : Repository) (m whole : Map Text TestOperation)
    → DistinctKeys m
    → ((id : Text) (t : TestOperation) → at id m ≡ some t → at id whole ≡ some t)
    → All (IsActiveEntry whole) (claimable_tests now r m)
unfolding claimable_tests
claimable_tests-active now r [] whole d h = tt
claimable_tests-active now r ((i, t) ∷ m) whole d h =
    let rest =
      claimable_tests-active now r m whole d.1 (λ id u k. h id u (at-tail i id t u m d.0 k)) in
    elim (Bool-cases (claimable now r i t)) [
      | inl claimed ↦ rw claimed ((h i t (at-head i t m), claimable-active now r i t claimed), rest)
      | inr other ↦ rw other rest
    ]

keys_of-active :
    (m : Map Text TestOperation) (es : List (Text × TestOperation))
    → All (IsActiveEntry m) es
    → All (IsActiveKey m) (keys_of es)
keys_of-active m [] h = tt
keys_of-active m ((id, t) ∷ es) h = ((t, h.0.0, h.0.1), keys_of-active m es h.1)

pub chosen-active :
    (now : Time) (r : Repository) (limit : ℕ)
    → DistinctKeys r.tests
    → All (IsActiveKey r.tests) (chosen now r limit)
unfolding chosen
chosen-active now r limit d =
    take-All (IsActiveKey r.tests) limit (keys_of (sort_by older (claimable_tests now r r.tests))) (
      keys_of-active r.tests (sort_by older (claimable_tests now r r.tests)) (
        sort_by-All older (IsActiveEntry r.tests) (claimable_tests now r r.tests)
          (claimable_tests-active now r r.tests r.tests d (λ id t k. k))))

-- What starting a test does to all of them.
started-IsActiveKey :
    (m : Map Text TestOperation) (id : Text) (t : TestOperation)
    → is_active_state t.test_state ≡ true
    → (j : Text) → IsActiveKey m j
    → IsActiveKey (set_at id t m) j
started-IsActiveKey m id t h j (u, k, a) = elim (Bool-cases (same id j)) [
  | inl found ↦ (t, ground (arith, at-set_at id j t m), h)
  | inr other ↦ (u, ground (arith, at-set_at id j t m), a)
]

selects-started :
    (s : Scope) (now : Time) (t : TestOperation)
    → is_active_state t.test_state ≡ true
    → selects s (start_test now t) ≡ true
    → selects s t ≡ true
unfolding start_test
selects-started (tenant_scope x) now t a p = ground arith
selects-started (actor_scope x y) now t a p = ground arith
selects-started (connection_scope x y) now t a p = ground arith

started-Quotas :
    (m : Map Text TestOperation) (now : Time) (id : Text) (t : TestOperation)
    → at id m ≡ some t
    → is_active_state t.test_state ≡ true
    → Quotas m
    → Quotas (set_at id (start_test now t) m)
unfolding start_test
started-Quotas m now id t h a q = record {
  distinct = set_at-DistinctKeys id (start_test now t) m q.distinct;
  within = λ s. ground (
    arith,
    count-replaced (selects s) id (start_test now t) t m h (selects-started s now t a),
    q.within s,
  );
}

module _ (o : Outside) where
  -- A claim of one test leaves the tests as they are or starts that one.
  claim_test-tests :
      (executor : Text) (lease : ℕ) (now : Time) (r : Repository) (id : Text) (t : TestOperation)
      → let (_, s) = claim_test o executor lease now r id t in
        (s.tests ≡ r.tests) ⊎ (s.tests ≡ set_at id (start_test now t) r.tests)
  unfolding claim_test
  claim_test-tests executor lease now r id t = ground arith

  claim_key-tests :
      (executor : Text) (lease : ℕ) (now : Time) (r : Repository) (id : Text) (t : TestOperation)
      → at id r.tests ≡ some t
      → let (_, s) = claim_key o executor lease now r id in
        (s.tests ≡ r.tests) ⊎ (s.tests ≡ set_at id (start_test now t) r.tests)
  unfolding claim_key
  claim_key-tests executor lease now r id t h =
      let reached : claim_key o executor lease now r id ≡ claim_test o executor lease now r id t =
        rw (h, claim_key) refl in
      ground (arith, reached, claim_test-tests executor lease now r id t)

  claim_each-cons :
      (executor : Text) (lease : ℕ) (now : Time) (r : Repository) (id : Text) (ids : List Text)
      → let (_, s) = claim_key o executor lease now r id in
        let (_, u) = claim_each o executor lease now r (id ∷ ids) in
        let (_, v) = claim_each o executor lease now s ids in
        (u.tests ≡ s.tests) ⊎ (u.tests ≡ v.tests)
  unfolding claim_each
  claim_each-cons executor lease now r id ids = ground arith

  pub claim_each-Quotas :
      (executor : Text) (lease : ℕ) (now : Time) (r : Repository) (ids : List Text)
      → All (IsActiveKey r.tests) ids
      → Quotas r.tests
      → let (_, s) = claim_each o executor lease now r ids in Quotas s.tests
  unfolding claim_each start_test
  claim_each-Quotas executor lease now r [] h q = q
  claim_each-Quotas executor lease now r (id ∷ ids) ((t, found, active), h) q =
      let (_, s) = claim_key o executor lease now r id in
      let after : Quotas s.tests × All (IsActiveKey s.tests) ids =
        elim (claim_key-tests executor lease now r id t found) [
          | inl same ↦ subst (λ m. Quotas m × All (IsActiveKey m) ids) (sym same) (q, h)
          | inr started ↦
              subst (λ m. Quotas m × All (IsActiveKey m) ids) (sym started)
                (
                  started-Quotas r.tests now id t found active q,
                  map-All (started-IsActiveKey r.tests id (start_test now t) refl) ids h,
                )
        ] in
      elim (claim_each-cons executor lease now r id ids) [
        | inl stopped ↦ subst Quotas (sym stopped) after.0
        | inr went_on ↦
            subst Quotas (sym went_on) (claim_each-Quotas executor lease now s ids after.1 after.0)
      ]
