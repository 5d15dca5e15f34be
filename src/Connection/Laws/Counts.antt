-- ===== src/Connection/Laws/Counts.antt =====
-- How many tests of a kind there are, and what each change of the tests does to that number.
use astra_sync.Prelude.{
  ℕ, ◌+◌, ◌≤◌, Text, text_eq, Bool, true, false, ◌&&◌, some, [], ◌∷◌, if◌then◌else◌, ◌≡◌, refl,
  arith, inl, inr, ◌⊎◌, Map, text_key, at, set_at,
}
use astra_sync.Job.Status.{Time}
use astra_sync.Connection.Operation.{TestOperation, is_active_state}
use astra_sync.Connection.Limits.{count_test, count_tests}
use astra_sync.Connection.Expiry.{expire_test, after_sweep, swept}

unfoldable pub count : (TestOperation → Bool) → Map Text TestOperation → ℕ
count p [] = 0
count p ((k, t) ∷ m) = (if p t then 1 else 0) + count p m

-- The active tests of a tenant, of an actor in it, and of a connection in it.
abbrev pub of_tenant : Text → TestOperation → Bool
of_tenant tenant t = text_eq t.test_tenant tenant && is_active_state t.test_state

abbrev pub of_actor : Text → Text → TestOperation → Bool
of_actor tenant actor t = of_tenant tenant t && text_eq t.test_actor actor

abbrev pub of_uid : Text → Text → TestOperation → Bool
of_uid tenant uid t = of_tenant tenant t && text_eq t.tested_uid uid

pub tenant_active-count :
    (c : TestOperation) (m : Map Text TestOperation)
    → (count_tests c m).tenant_active ≡ count (of_tenant c.test_tenant) m
unfolding count_tests count_test count
tenant_active-count c [] = refl
tenant_active-count c ((k, t) ∷ m) = ground (arith, tenant_active-count c m)

pub actor_active-count :
    (c : TestOperation) (m : Map Text TestOperation)
    → (count_tests c m).actor_active ≡ count (of_actor c.test_tenant c.test_actor) m
unfolding count_tests count_test count
actor_active-count c [] = refl
actor_active-count c ((k, t) ∷ m) = ground (arith, actor_active-count c m)

pub connection_active-count :
    (c : TestOperation) (m : Map Text TestOperation)
    → (count_tests c m).connection_active ≡ count (of_uid c.test_tenant c.tested_uid) m
unfolding count_tests count_test count
connection_active-count c [] = refl
connection_active-count c ((k, t) ∷ m) = ground (arith, connection_active-count c m)

-- The sweep leaves a test as it is or ends it.
pub after_sweep-cases :
    (now : Time) (t : TestOperation)
    → (after_sweep now t ≡ t) ⊎ (is_active_state (after_sweep now t).test_state ≡ false)
unfolding after_sweep expire_test
after_sweep-cases now t = ground arith

module _ (p : TestOperation → Bool) where
  pub count-set_at :
      (k : Text) (t : TestOperation) (m : Map Text TestOperation)
      → count p (set_at k t m) ≤ count p m + (if p t then 1 else 0)
  unfolding count set_at
  count-set_at k t [] = ground arith
  count-set_at k t ((i, u) ∷ m) = ground (arith, count-set_at k t m)

  -- A test takes the place of one that was counted if it is.
  pub count-replaced :
      (k : Text) (t old : TestOperation) (m : Map Text TestOperation)
      → at k m ≡ some old
      → (p t ≡ true → p old ≡ true)
      → count p (set_at k t m) ≤ count p m
  unfolding count set_at at
  count-replaced k t old [] h f = absurd (cc)
  count-replaced k t old ((i, u) ∷ m) h f = ground (arith, count-replaced k t old m)

  pub count-swept :
      (now : Time) (m : Map Text TestOperation)
      → ((t : TestOperation) → is_active_state t.test_state ≡ false → p t ≡ false)
      → count p (swept now m) ≤ count p m
  unfolding count swept
  count-swept now [] a = omega arith
  count-swept now ((i, t) ∷ m) a = elim (after_sweep-cases now t) [
    | inl same ↦ rw same (ground (arith, count-swept now m a))
    | inr ended ↦ ground (arith, a (after_sweep now t) ended, count-swept now m a)
  ]
