-- ===== src/Connection/Claims.antt =====
-- `ClaimTests` and `CompleteTest` of control-plane/connection/memory/repository.go.
use astra_sync.Prelude.{
  ℕ, ℤ, pos, ◌+◌, Text, text_eq, text_lt, codes, is_blank, Bool, true, false, not, ◌&&◌, ◌||◌,
  Option, none, some, List, [], ◌∷◌, ◌++◌, length, take, ltb, ◌==◌, is_positive, int_lt, inc32,
  if◌then◌else◌, Result, ok, err, Map, text_key, int_key, at, set_at, delete_at, sort_by,
}
use astra_sync.Job.Status.{Time}
use astra_sync.Connection.Error.{
  Error, test_lease_lost, claim_invalid, generation_unavailable, completion_invalid,
  slice_out_of_range,
}
use astra_sync.Connection.Settings.{Generation}
use astra_sync.Connection.Model.{Connection}
use astra_sync.Connection.Policy.{Outside}
use astra_sync.Connection.Operation.{
  TestOperation, TestState, queued, running, policy_phase, no_code, deadline_exceeded, ResultCode,
  other_code, result_ok, policy_denied, secret_unavailable, dns_failed, transport_failed,
  tls_failed, authentication_failed, handshake_failed, executor_unavailable, is_running, TestWork,
  Completion, maximum_executor_id, validate_completion, validate_test, validate_work, is_err,
}
use astra_sync.Connection.Mutation.{text_attribute, int_attribute, changed}
use astra_sync.Connection.Expiry.{next_revision, expire_locked}
use astra_sync.Connection.Store.{Repository, AuditEvent, Claim, indexed, or_else, magnitude}

abbrev is_queued : TestState → Bool
is_queued queued = true
is_queued _ = false

-- The zero value of a claim.
abbrev pub no_claim : Claim
no_claim = record { executor_id = []; attempt = pos 0; lease_expires_at = 0 }

unfoldable pub claim_of : Repository → Text → Claim
claim_of r id = or_else (at id r.claims) no_claim

-- A test that waits, or whose lease is over.
unfoldable pub claimable : Time → Repository → Text → TestOperation → Bool
claimable now r id t =
    is_queued t.test_state
    || (is_running t.test_state && not (ltb now (claim_of r id).lease_expires_at))

unfoldable pub claimable_tests :
    Time → Repository → Map Text TestOperation → List (Text × TestOperation)
claimable_tests now r [] = []
claimable_tests now r ((id, t) ∷ m) =
    if claimable now r id t then (id, t) ∷ claimable_tests now r m else claimable_tests now r m

-- The oldest first.
unfoldable pub older : Text × TestOperation → Text × TestOperation → Bool
older (i, t) (j, u) =
    if t.requested_at == u.requested_at then text_lt i j else ltb t.requested_at u.requested_at

-- The generation that was captured for a test, and its connection.
unfoldable pub captured : Repository → TestOperation → Option (Generation × Connection)
captured r t = elim (at t.tested_uid r.generations) [
  | none ↦ none
  | some known ↦ elim (at t.tested_generation known) [
    | none ↦ none
    | some g ↦ elim (indexed r t.tested_uid) [ none ↦ none | some c ↦ some (g, c) ]
  ]
]

-- The test as it runs from `now` on, or from where it had started.
unfoldable pub start_test : Time → TestOperation → TestOperation
start_test now t = record t {
  test_state = running;
  phase = policy_phase;
  result_code = no_code;
  success = false;
  remediation = [];
  started_at = some (or_else t.started_at now);
  completed_at = none;
}

abbrev pub add_work :
    TestWork → Result Error (List TestWork) × Repository → Result Error (List TestWork) × Repository
add_work w (ok ws, r) = (ok (w ∷ ws), r)
add_work w (err e, r) = (err e, r)

-- The keys of a list of entries.
abbrev pub keys_of : List (Text × TestOperation) → List Text
keys_of [] = []
keys_of ((id, t) ∷ m) = id ∷ keys_of m

unfoldable pub chosen : Time → Repository → ℕ → List Text
chosen now r limit = take limit (keys_of (sort_by older (claimable_tests now r r.tests)))

abbrev pub counted :
    Result Error (List TestWork) × Repository → Result Error (List TestWork) × Repository
counted (ok [], r) = (ok [], r)
counted (ok (w ∷ ws), r) = (ok (w ∷ ws), next_revision r)
counted (err e, r) = (err e, r)

abbrev code_text : ResultCode → Text
code_text result_ok = codes "OK"
code_text policy_denied = codes "POLICY_DENIED"
code_text secret_unavailable = codes "SECRET_UNAVAILABLE"
code_text dns_failed = codes "DNS_FAILED"
code_text transport_failed = codes "TRANSPORT_FAILED"
code_text tls_failed = codes "TLS_FAILED"
code_text authentication_failed = codes "AUTHENTICATION_FAILED"
code_text handshake_failed = codes "HANDSHAKE_FAILED"
code_text deadline_exceeded = codes "DEADLINE_EXCEEDED"
code_text executor_unavailable = codes "EXECUTOR_UNAVAILABLE"
code_text (other_code s) = s

-- The test runs, and the executor holds a lease that has not run out.
unfoldable pub holds_lease : Repository → Text → Text → Time → TestOperation → Bool
holds_lease r id executor now t =
    is_running t.test_state
    && (text_eq (claim_of r id).executor_id executor
        && (ltb now (claim_of r id).lease_expires_at && ltb now t.deadline_at))

unfoldable pub complete_with : Time → Completion → TestOperation → TestOperation
complete_with now c t = record t {
  test_state = c.final_state;
  phase = c.final_phase;
  result_code = c.final_code;
  success = c.final_success;
  remediation = c.final_remediation;
  completed_at = some now;
}

abbrev pub complete_event : Text → Text → TestOperation → AuditEvent
complete_event id executor t = record {
  event_tenant = t.test_tenant;
  action = codes "TEST_COMPLETE";
  event_actor = codes "service:" ++ executor;
  event_request = id;
  event_outcome = changed;
  event_attributes =
      (codes "operationId", text_attribute id)
      ∷ (codes "connectionUid", text_attribute t.tested_uid)
      ∷ (codes "generation", int_attribute t.tested_generation)
      ∷ (codes "resultCode", text_attribute (code_text t.result_code))
      ∷ [];
}

-- At most 64 tests, leased for at most 5 minutes.
unfoldable pub claim_refused : Text → ℤ → ℤ → Bool
claim_refused executor limit lease =
    is_blank executor
    || (ltb maximum_executor_id (length executor)
        || (not (is_positive limit)
            || (int_lt (pos 64) limit
                || (not (is_positive lease) || int_lt (pos 300000000000) lease))))

module _ (o : Outside) where
  -- The body of the loop for the test `t` of the key `id`. The claim and the test are stored before
  -- the work is checked.
  unfoldable pub claim_test :
      Text → ℕ → Time → Repository → Text → TestOperation → Result Error TestWork × Repository
  claim_test executor lease now r id t = elim (captured r t) [
    | none ↦ (err generation_unavailable, r)
    | some (g, c) ↦
        let test = start_test now t in
        let claim : Claim = record {
          executor_id = executor;
          attempt = inc32 (claim_of r id).attempt;
          lease_expires_at = now + lease;
        } in
        let stored = record r {
          claims = set_at id claim r.claims;
          tests = set_at id test r.tests;
        } in
        let work : TestWork = record {
          operation = test;
          snapshot = record {
            snapshot_tenant = test.test_tenant;
            tenant_namespace = codes "tenant-" ++ take 8 test.test_tenant;
            snapshot_uid = test.tested_uid;
            snapshot_connector = c.connector;
            generation = g;
          };
          work_executor = executor;
          work_attempt = claim.attempt;
          lease_until = claim.lease_expires_at;
        } in
        if ltb (length test.test_tenant) 8
        then (err slice_out_of_range, stored)
        else elim (validate_work o work) [ err e ↦ (err e, stored) | ok u ↦ (ok work, stored) ]
  ]

  -- The body of the loop; a key of the list is one of the map, so the first case is not met.
  unfoldable pub claim_key :
      Text → ℕ → Time → Repository → Text → Result Error TestWork × Repository
  claim_key executor lease now r id = elim (at id r.tests) [
    | none ↦ (err generation_unavailable, r)
    | some t ↦ claim_test executor lease now r id t
  ]

  -- The loop over the keys that were chosen.
  unfoldable pub claim_each :
      Text → ℕ → Time → Repository → List Text → Result Error (List TestWork) × Repository
  claim_each executor lease now r [] = (ok [], r)
  claim_each executor lease now r (id ∷ ids) =
      let (work, s) = claim_key executor lease now r id in
      elim work [ err e ↦ (err e, s) | ok w ↦ add_work w (claim_each executor lease now s ids) ]

  unfoldable pub claim_tests :
      Repository → Text → ℤ → ℤ → Time → Result Error (List TestWork) × Repository
  claim_tests r executor limit lease now =
      if claim_refused executor limit lease
      then (err claim_invalid, r)
      else let (count, s) = expire_locked now r in
        counted (claim_each executor (magnitude lease) now s (chosen now s (magnitude limit)))

  unfoldable pub finish_test :
      Repository → Text → Text → TestOperation → Result Error TestOperation × Repository
  finish_test r id executor t = elim (validate_test o t) [
    | err e ↦ (err e, r)
    | ok u ↦ (
      ok t,
      next_revision (record r {
        tests = set_at id t r.tests;
        claims = delete_at id r.claims;
        audits = r.audits ++ complete_event id executor t ∷ [];
      }),
    )
  ]

  unfoldable pub complete_test :
      Repository → Text → Text → Completion → Time → Result Error TestOperation × Repository
  complete_test r id executor c now =
      if is_err (validate_completion c)
        || (is_blank executor || ltb maximum_executor_id (length executor))
      then (err completion_invalid, r)
      else elim (at id r.tests) [
        | none ↦ (err test_lease_lost, r)
        | some t ↦
            if not (holds_lease r id executor now t)
            then (err test_lease_lost, r)
            else finish_test r id executor (complete_with now c t)
      ]
