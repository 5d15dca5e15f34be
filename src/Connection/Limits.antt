-- ===== src/Connection/Limits.antt =====
-- `hasActiveTest` and `testLimitExceeded` of control-plane/connection/memory/repository.go.
use astra_sync.Prelude.{
  ℕ, ◌+◌, Text, text_eq, Bool, false, ◌&&◌, ◌||◌, [], ◌∷◌, leb, if◌then◌else◌, Map,
}
use astra_sync.Connection.Operation.{TestOperation, is_active_state}
use astra_sync.Connection.Store.{Repository, is_test_of}

-- The loop of `hasActiveTest`.
unfoldable pub has_test_of : Text → Map Text TestOperation → Bool
has_test_of uid [] = false
has_test_of uid ((k, t) ∷ m) = is_test_of uid t || has_test_of uid m

pub record Counts : Type 0 where
  pub tenant_active : ℕ
  pub actor_active : ℕ
  pub connection_active : ℕ
  pub tenant_daily : ℕ

abbrev one_if : Bool → ℕ
one_if b = if b then 1 else 0

-- 24 hours in nanoseconds.
abbrev pub day : ℕ
day = 86400000000000

-- The body of the loop of `testLimitExceeded`.
unfoldable pub count_test : TestOperation → TestOperation → Counts → Counts
count_test candidate t n =
    let tenant = text_eq t.test_tenant candidate.test_tenant in
    let active = tenant && is_active_state t.test_state in
    record {
      tenant_active = n.tenant_active + one_if active;
      actor_active = n.actor_active + one_if (active && text_eq t.test_actor candidate.test_actor);
      connection_active =
          n.connection_active + one_if (active && text_eq t.tested_uid candidate.tested_uid);
      tenant_daily =
          n.tenant_daily + one_if (tenant && leb candidate.requested_at (t.requested_at + day));
    }

unfoldable pub count_tests : TestOperation → Map Text TestOperation → Counts
count_tests candidate [] = record {
  tenant_active = 0;
  actor_active = 0;
  connection_active = 0;
  tenant_daily = 0;
}
count_tests candidate ((k, t) ∷ m) = count_test candidate t (count_tests candidate m)

unfoldable pub limit_exceeded : Repository → TestOperation → Bool
limit_exceeded r candidate =
    let n = count_tests candidate r.tests in
    leb 8 n.tenant_active
    || (leb 2 n.actor_active || (leb 1 n.connection_active || leb 100 n.tenant_daily))
