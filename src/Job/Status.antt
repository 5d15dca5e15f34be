-- ===== src/Job/Status.antt =====
-- The status of a job and its validation, control-plane/job/model.go. A time is the number of
-- nanoseconds since the zero `time.Time`, so `IsZero` is a test against 0.
use astra_sync.Prelude.{
  ℕ, ℤ, Text, text_eq, is_blank, Bool, true, false, not, ◌&&◌, ◌||◌, Option, none, some, is_set,
  is_neg, is_zero, is_positive, ◌==◌, Result, check, ◌>>◌,
}
use astra_sync.Job.Error.{
  Error, State, created, initializing, running, canceling, canceled, finished, failed, unsupported,
  unsupported_desired, unsupported_state, negative_counter, created_with_epoch, missing_epoch,
  desired_mismatch, start_time_mismatch, end_time_mismatch, failure_mismatch, failure_incomplete,
  checkpoint_invalid,
}

abbrev pub Time : Type 0
Time = ℕ

pub data DesiredState : Type 0 where
  stopped started : DesiredState
  unsupported_desired_state : Text → DesiredState

pub record Checkpoint : Type 0 where
  pub id : ℤ
  pub taken_at : Time
  pub state_size : ℤ
  pub duration_ms : ℤ

pub record Failure : Type 0 where
  pub reason : Text
  pub root_cause : Text
  pub failed_at : Time
  pub host : Text

pub record Status : Type 0 where
  pub desired : DesiredState
  pub state : State
  pub epoch : ℤ
  pub restart_count : ℤ
  pub start_time : Option Time
  pub end_time : Option Time
  pub last_checkpoint : Option Checkpoint
  pub failure : Option Failure

unfoldable pub state_eq : State → State → Bool
state_eq created created = true
state_eq initializing initializing = true
state_eq running running = true
state_eq canceling canceling = true
state_eq canceled canceled = true
state_eq finished finished = true
state_eq failed failed = true
state_eq (unsupported s) (unsupported t) = text_eq s t
state_eq _ _ = false

abbrev pub desires_running : DesiredState → Bool
desires_running started = true
desires_running _ = false

abbrev pub desires_stopped : DesiredState → Bool
desires_stopped stopped = true
desires_stopped _ = false

abbrev pub is_created : State → Bool
is_created created = true
is_created _ = false

abbrev pub is_failed : State → Bool
is_failed failed = true
is_failed _ = false

abbrev pub is_running : State → Bool
is_running running = true
is_running _ = false

-- `s.State == StateInitializing || s.State == StateRunning`
abbrev pub executes : State → Bool
executes initializing = true
executes running = true
executes _ = false

unfoldable pub terminal : State → Bool
terminal canceled = true
terminal finished = true
terminal failed = true
terminal _ = false

unfoldable pub active : State → Bool
active initializing = true
active running = true
active canceling = true
active _ = false

abbrev pub is_supported : State → Bool
is_supported (unsupported s) = false
is_supported _ = true

abbrev is_desired_supported : DesiredState → Bool
is_desired_supported (unsupported_desired_state s) = false
is_desired_supported _ = true

abbrev pub differs : Bool → Bool → Bool
differs true b = not b
differs false b = b

abbrev pub failure_bad : Option Failure → Bool
failure_bad none = false
failure_bad (some f) = is_blank f.reason || (f.failed_at == 0)

abbrev pub checkpoint_bad : Option Checkpoint → Bool
checkpoint_bad none = false
checkpoint_bad (some c) =
    is_neg c.id || ((c.taken_at == 0) || (is_neg c.state_size || is_neg c.duration_ms))

unfoldable pub validate_status : Status → Result Error (Unit {0})
unfolding terminal
validate_status s = do
  check (not (is_desired_supported s.desired)) unsupported_desired
  check (not (is_supported s.state)) unsupported_state
  check (is_neg s.epoch || is_neg s.restart_count) negative_counter
  check (is_created s.state && not (is_zero s.epoch)) created_with_epoch
  check (not (is_created s.state) && is_zero s.epoch) missing_epoch
  check (differs (executes s.state) (desires_running s.desired)) desired_mismatch
  check
      ((is_zero s.epoch && is_set s.start_time)
        || (is_positive s.epoch && not (is_set s.start_time)))
      start_time_mismatch
  check (differs (terminal s.state) (is_set s.end_time)) end_time_mismatch
  check (differs (is_failed s.state) (is_set s.failure)) failure_mismatch
  check (failure_bad s.failure) failure_incomplete
  check (checkpoint_bad s.last_checkpoint) checkpoint_invalid
