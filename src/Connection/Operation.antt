-- ===== src/Connection/Operation.antt =====
-- Test operations of control-plane/connection/repository.go: states, phases, result codes, and the
-- validation of operations, completions, captured generations and claimed work.
use astra_sync.Prelude.{
  ℕ, ℤ, Text, text_eq, is_blank, is_empty, Bool, true, false, not, ◌&&◌, ◌||◌, Option, some, is_set,
  is_positive, int_eq, [], length, ltb, ◌==◌, if◌then◌else◌, Result, ok, err, check, ◌>>◌,
}
use astra_sync.Job.Spec.{matches_connector_name}
use astra_sync.Job.Status.{Time}
use astra_sync.Job.Mutation.{matches_revision}
use astra_sync.Connection.Error.{
  Error, snapshot_tenant_invalid, snapshot_namespace_invalid, snapshot_identity_invalid,
  work_operation_invalid, work_generation_invalid, work_lease_invalid, completion_state_invalid,
  completion_result_invalid, success_inconsistent, failure_inconsistent, timeout_inconsistent,
  test_tenant_invalid, test_operation_invalid, test_identity_invalid, queued_inconsistent,
  running_inconsistent, terminal_times_inconsistent, expired_inconsistent, test_state_invalid,
}
use astra_sync.Connection.Settings.{
  Generation, contains_any, is_line_end_or_nul, validate_generation,
}
use astra_sync.Connection.Policy.{Outside, Policy, validate_policy}

abbrev pub maximum_executor_id : ℕ
maximum_executor_id = 128

pub data TestState : Type 0 where
  queued running succeeded failed timed_out canceled expired : TestState
  other_test_state : Text → TestState

pub data TestPhase : Type 0 where
  policy_phase dns transport tls authentication handshake complete : TestPhase
  other_phase : Text → TestPhase

pub data ResultCode : Type 0 where
  result_ok policy_denied secret_unavailable dns_failed transport_failed : ResultCode
  tls_failed authentication_failed handshake_failed deadline_exceeded : ResultCode
  executor_unavailable : ResultCode
  other_code : Text → ResultCode

-- The empty phase and the empty result code.
abbrev pub no_phase : TestPhase
no_phase = other_phase []

abbrev pub no_code : ResultCode
no_code = other_code []

pub record TestOperation : Type 0 where
  pub test_tenant : Text
  pub operation_id : Text
  pub tested_uid : Text
  pub tested_generation : ℤ
  pub tested_revision : Text
  pub test_actor : Text
  pub policy : Policy
  pub test_state : TestState
  pub phase : TestPhase
  pub result_code : ResultCode
  pub success : Bool
  pub remediation : Text
  pub requested_at : Time
  pub deadline_at : Time
  pub started_at : Option Time
  pub completed_at : Option Time
  pub expires_at : Time

pub record Snapshot : Type 0 where
  pub snapshot_tenant : Text
  pub tenant_namespace : Text
  pub snapshot_uid : Text
  pub snapshot_connector : Text
  pub generation : Generation

pub record TestWork : Type 0 where
  pub operation : TestOperation
  pub snapshot : Snapshot
  pub work_executor : Text
  pub work_attempt : ℤ
  pub lease_until : Time

pub record Completion : Type 0 where
  pub final_state : TestState
  pub final_phase : TestPhase
  pub final_code : ResultCode
  pub final_success : Bool
  pub final_remediation : Text

abbrev pub is_running : TestState → Bool
is_running running = true
is_running _ = false

-- Queued or running.
abbrev pub is_active_state : TestState → Bool
is_active_state queued = true
is_active_state running = true
is_active_state _ = false

abbrev pub is_finished : TestState → Bool
is_finished succeeded = true
is_finished failed = true
is_finished timed_out = true
is_finished canceled = true
is_finished _ = false

abbrev pub is_succeeded : TestState → Bool
is_succeeded succeeded = true
is_succeeded _ = false

abbrev pub is_timed_out : TestState → Bool
is_timed_out timed_out = true
is_timed_out _ = false

abbrev pub is_no_phase : TestPhase → Bool
is_no_phase (other_phase s) = is_empty s
is_no_phase _ = false

abbrev pub is_no_code : ResultCode → Bool
is_no_code (other_code s) = is_empty s
is_no_code _ = false

abbrev pub valid_running_phase : TestPhase → Bool
valid_running_phase complete = false
valid_running_phase (other_phase s) = false
valid_running_phase _ = true

abbrev is_complete : TestPhase → Bool
is_complete complete = true
is_complete _ = false

abbrev pub valid_phase : TestPhase → Bool
valid_phase p = valid_running_phase p || is_complete p

abbrev pub valid_code : ResultCode → Bool
valid_code (other_code s) = false
valid_code _ = true

abbrev is_ok : ResultCode → Bool
is_ok result_ok = true
is_ok _ = false

abbrev is_deadline : ResultCode → Bool
is_deadline deadline_exceeded = true
is_deadline _ = false

unfoldable pub validate_completion : Completion → Result Error (Unit {0})
validate_completion c = do
  check (not (is_finished c.final_state)) completion_state_invalid
  check
      (not (valid_phase c.final_phase)
        || (not (valid_code c.final_code)
            || (ltb 128 (length c.final_remediation)
                || contains_any is_line_end_or_nul c.final_remediation)))
      completion_result_invalid
  if is_succeeded c.final_state
      then check
          (not c.final_success
            || (not (is_complete c.final_phase)
                || (not (is_ok c.final_code) || not (is_empty c.final_remediation))))
          success_inconsistent
      else check (c.final_success || is_ok c.final_code) failure_inconsistent
  check (is_timed_out c.final_state && not (is_deadline c.final_code)) timeout_inconsistent

-- The result of a test is still empty.
abbrev has_result : TestOperation → Bool
has_result t = not (is_no_code t.result_code) || (t.success || not (is_empty t.remediation))

-- Not both times are set, or the test ended before it started.
abbrev times_inconsistent : Option Time → Option Time → Bool
times_inconsistent (some started) (some completed) = ltb completed started
times_inconsistent _ _ = true

-- The `switch` over the state.
unfoldable pub validate_test_state : TestState → TestOperation → Result Error (Unit {0})
validate_test_state queued t =
    check
      (not (is_no_phase t.phase)
        || (has_result t || (is_set t.started_at || is_set t.completed_at)))
      queued_inconsistent
validate_test_state running t =
    check
      (not (valid_running_phase t.phase)
        || (has_result t || (not (is_set t.started_at) || is_set t.completed_at)))
      running_inconsistent
validate_test_state expired t =
    check
      (not (is_no_phase t.phase)
        || (has_result t || times_inconsistent t.started_at t.completed_at))
      expired_inconsistent
validate_test_state (other_test_state s) t = err test_state_invalid
validate_test_state finished t = do
  check (times_inconsistent t.started_at t.completed_at) terminal_times_inconsistent
  validate_completion (record {
    final_state = t.test_state;
    final_phase = t.phase;
    final_code = t.result_code;
    final_success = t.success;
    final_remediation = t.remediation;
  })

abbrev pub is_err {ℓ} : {A : Type ℓ} → Result Error A → Bool
is_err (ok a) = false
is_err (err e) = true

module _ (o : Outside) where
  unfoldable pub validate_test : TestOperation → Result Error (Unit {0})
  validate_test t = do
    check (not (o.is_uuid t.test_tenant)) test_tenant_invalid
    check (not (o.is_uuid t.operation_id)) test_operation_invalid
    check
        (not (o.is_uuid t.tested_uid)
          || (not (is_positive t.tested_generation)
              || (not (matches_revision t.tested_revision)
                  || ((t.requested_at == 0)
                      || (is_blank t.test_actor
                          || (ltb 256 (length t.test_actor)
                              || ((t.deadline_at == 0)
                                  || (not (ltb t.requested_at t.deadline_at)
                                      || not (ltb t.deadline_at t.expires_at)))))))))
        test_identity_invalid
    validate_policy o t.policy
    validate_test_state t.test_state t

  unfoldable pub validate_snapshot : Snapshot → Result Error (Unit {0})
  validate_snapshot s = do
    check (not (o.is_uuid s.snapshot_tenant)) snapshot_tenant_invalid
    check (is_blank s.tenant_namespace || ltb 63 (length s.tenant_namespace))
        snapshot_namespace_invalid
    check
        (not (o.is_uuid s.snapshot_uid)
          || (not (matches_connector_name s.snapshot_connector)
              || not (is_positive s.generation.number)))
        snapshot_identity_invalid
    validate_generation o.is_uuid s.generation

  unfoldable pub validate_work : TestWork → Result Error (Unit {0})
  validate_work w = do
    check (is_err (validate_test w.operation) || not (is_running w.operation.test_state))
        work_operation_invalid
    check
        (is_err (validate_snapshot w.snapshot)
          || (not (text_eq w.snapshot.snapshot_tenant w.operation.test_tenant)
              || (not (text_eq w.snapshot.snapshot_uid w.operation.tested_uid)
                  || (not (int_eq w.snapshot.generation.number w.operation.tested_generation)
                      || not (
                          text_eq w.snapshot.generation.descriptor_revision
                            w.operation.tested_revision)))))
        work_generation_invalid
    check
        (is_blank w.work_executor
          || (ltb maximum_executor_id (length w.work_executor)
              || (not (is_positive w.work_attempt) || (w.lease_until == 0))))
        work_lease_invalid
