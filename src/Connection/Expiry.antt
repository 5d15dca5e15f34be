-- ===== src/Connection/Expiry.antt =====
-- `expireLocked` and `ExpireTests` of control-plane/connection/memory/repository.go.
use astra_sync.Prelude.{
  ℤ, pos, ◌+◌, ◌%◌, ◌^◌, Text, codes, Bool, true, false, not, ◌&&◌, Option, none, some, List, [],
  ◌∷◌, ◌++◌, ltb, is_positive, inc64, if◌then◌else◌, Map, text_key, int_key, delete_at,
}
use astra_sync.Job.Status.{Time}
use astra_sync.Connection.Operation.{
  TestOperation, TestState, timed_out, expired, policy_phase, no_phase, no_code, is_no_phase,
  deadline_exceeded, is_active_state,
}
use astra_sync.Connection.Mutation.{text_attribute, int_attribute, changed}
use astra_sync.Connection.Store.{Repository, AuditEvent, Claim, or_else}

abbrev is_expired : TestState → Bool
is_expired expired = true
is_expired _ = false

-- The operation after the sweep and the action to audit, if the sweep changes it.
unfoldable pub expire_test : Time → TestOperation → Option (TestOperation × Text)
expire_test now t =
    let started = or_else t.started_at t.requested_at in
    if is_expired t.test_state
    then none
    else (if not (ltb now t.expires_at)
        then some (
          record t {
            test_state = expired;
            phase = no_phase;
            result_code = no_code;
            success = false;
            remediation = [];
            started_at = some started;
            completed_at = some (or_else t.completed_at now);
          },
          codes "TEST_EXPIRE",
        )
        else (if is_active_state t.test_state && not (ltb now t.deadline_at)
            then some (
              record t {
                test_state = timed_out;
                phase = if is_no_phase t.phase then policy_phase else t.phase;
                result_code = deadline_exceeded;
                success = false;
                remediation = codes "connection.test.deadline";
                started_at = some started;
                completed_at = some now;
              },
              codes "TEST_TIMEOUT",
            )
            else none))

abbrev sweep_event : Text → TestOperation → Text → AuditEvent
sweep_event id t act = record {
  event_tenant = t.test_tenant;
  action = act;
  event_actor = codes "service:connection-test-reconciler";
  event_request = id;
  event_outcome = changed;
  event_attributes =
      (codes "operationId", text_attribute id)
      ∷ (codes "connectionUid", text_attribute t.tested_uid)
      ∷ (codes "generation", int_attribute t.tested_generation)
      ∷ [];
}

unfoldable pub after_sweep : Time → TestOperation → TestOperation
after_sweep now t = elim (expire_test now t) [ none ↦ t | some (next, act) ↦ next ]

-- The operations after a sweep of all of them.
unfoldable pub swept : Time → Map Text TestOperation → Map Text TestOperation
swept now [] = []
swept now ((id, t) ∷ m) = (id, after_sweep now t) ∷ swept now m

-- What the sweep does beside: it gives up claims, audits, and counts.
unfoldable pub sweep_rest :
    Time
    → Map Text TestOperation
    → Map Text Claim
    → List AuditEvent
    → ℤ
    → Map Text Claim × List AuditEvent × ℤ
sweep_rest now [] claims audits count = (claims, audits, count)
sweep_rest now ((id, t) ∷ m) claims audits count = elim (expire_test now t) [
  | none ↦ sweep_rest now m claims audits count
  | some (next, act) ↦
      sweep_rest now m (delete_at id claims) (audits ++ sweep_event id next act ∷ []) (inc64 count)
]

unfoldable pub expire_locked : Time → Repository → ℤ × Repository
expire_locked now r =
    let (claims, audits, count) = sweep_rest now r.tests r.claims r.audits (pos 0) in
    (count, record r { tests = swept now r.tests; claims = claims; audits = audits })

abbrev pub next_revision : Repository → Repository
next_revision r = record r { list_revision = (r.list_revision + 1) % 2 ^ 64 }

unfoldable pub expire_tests : Repository → Time → ℤ × Repository
expire_tests r now =
    let (count, s) = expire_locked now r in
    (count, if is_positive count then next_revision s else s)
