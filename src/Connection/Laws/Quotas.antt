-- ===== src/Connection/Laws/Quotas.antt =====
-- The limits of active tests under every call of the in-memory repository.
use astra_sync.Prelude.{
  ℕ, ◌≤◌, ◌<◌, Text, text_eq_iff, Bool, true, false, none, [], ◌∷◌, ◌≡◌, inl, inr, refl, arith,
  Bool-cases, Map, text_key, at, set_at, DistinctKeys, set_at-DistinctKeys,
}
use astra_sync.Job.Status.{Time}
use astra_sync.Connection.Operation.{TestOperation, is_active_state}
use astra_sync.Connection.Store.{Repository}
use astra_sync.Connection.Limits.{limit_exceeded}
use astra_sync.Connection.Expiry.{swept}
use astra_sync.Connection.Laws.Counts.{
  count, of_tenant, of_actor, of_uid, count-set_at, count-swept, tenant_active-count,
  actor_active-count, connection_active-count,
}

-- What a limit is on: a tenant, an actor of a tenant, or a connection of a tenant.
pub data Scope : Type 0 where
  tenant_scope : Text → Scope
  actor_scope : Text → Text → Scope
  connection_scope : Text → Text → Scope

abbrev pub selects : Scope → TestOperation → Bool
selects (tenant_scope tenant) = of_tenant tenant
selects (actor_scope tenant actor) = of_actor tenant actor
selects (connection_scope tenant uid) = of_uid tenant uid

abbrev pub quota : Scope → ℕ
quota (tenant_scope tenant) = 8
quota (actor_scope tenant actor) = 2
quota (connection_scope tenant uid) = 1

-- No scope has more active tests than its quota.
pub record Quotas (m : Map Text TestOperation) : Type 0 where
  pub distinct : DistinctKeys m
  pub within : (s : Scope) → count (selects s) m ≤ quota s

selects-inactive :
    (s : Scope) (t : TestOperation) → is_active_state t.test_state ≡ false → selects s t ≡ false
selects-inactive (tenant_scope a) t h = ground arith
selects-inactive (actor_scope a b) t h = ground arith
selects-inactive (connection_scope a b) t h = ground arith

has_room :
    (r : Repository) (t : TestOperation) (s : Scope)
    → limit_exceeded r t ≡ false
    → selects s t ≡ true
    → count (selects s) r.tests < quota s
unfolding limit_exceeded
has_room r t (tenant_scope a) h p =
    ground (arith, tenant_active-count t r.tests, text_eq_iff t.test_tenant a)
has_room r t (actor_scope a b) h p =
    ground
      (arith, actor_active-count t r.tests, text_eq_iff t.test_tenant a, text_eq_iff t.test_actor b)
has_room r t (connection_scope a b) h p = ground (
  arith,
  connection_active-count t r.tests,
  text_eq_iff t.test_tenant a,
  text_eq_iff t.tested_uid b,
)

pub admitted-Quotas :
    (r : Repository) (t : TestOperation)
    → limit_exceeded r t ≡ false
    → Quotas r.tests
    → Quotas (set_at t.operation_id t r.tests)
admitted-Quotas r t h q = record {
  distinct = set_at-DistinctKeys t.operation_id t r.tests q.distinct;
  within = λ s. elim (Bool-cases (selects s t)) [
    | inl selected ↦
        ground (arith, count-set_at (selects s) t.operation_id t r.tests, has_room r t s h selected)
    | inr other ↦ ground (arith, count-set_at (selects s) t.operation_id t r.tests, q.within s)
  ];
}

-- A test that is over takes a place.
pub ended-Quotas :
    (m : Map Text TestOperation) (id : Text) (t : TestOperation)
    → is_active_state t.test_state ≡ false
    → Quotas m
    → Quotas (set_at id t m)
ended-Quotas m id t h q = record {
  distinct = set_at-DistinctKeys id t m q.distinct;
  within = λ s. ground (arith, count-set_at (selects s) id t m, selects-inactive s t h, q.within s);
}

at-swept :
    (id : Text) (now : Time) (m : Map Text TestOperation)
    → at id m ≡ none
    → at id (swept now m) ≡ none
unfolding at swept
at-swept id now [] h = refl
at-swept id now ((i, t) ∷ m) h = ground (arith, at-swept id now m)

pub swept-DistinctKeys :
    (now : Time) (m : Map Text TestOperation) → DistinctKeys m → DistinctKeys (swept now m)
unfolding swept
swept-DistinctKeys now [] d = tt
swept-DistinctKeys now ((i, t) ∷ m) d = (at-swept i now m d.0, swept-DistinctKeys now m d.1)

pub swept-Quotas : (now : Time) (m : Map Text TestOperation) → Quotas m → Quotas (swept now m)
swept-Quotas now m q = record {
  distinct = swept-DistinctKeys now m q.distinct;
  within = λ s. ground (arith, count-swept (selects s) now m (selects-inactive s), q.within s);
}
