-- ===== src/Job/Lifecycle.antt =====
-- control-plane/job/lifecycle.go: what a user asks for (start, stop, a new spec, deletion) and what
-- the controller reports (`advance`). A time argument is what the caller passes as `now`.
use astra_sync.Prelude.{
  ℤ, Bool, true, false, not, ◌&&◌, ◌||◌, Option, none, some, is_set, is_positive, int_eq, int_lt,
  inc64, inc32, if◌then◌else◌, Result, ok, err, check, ◌>>◌,
}
use astra_sync.Job.Error.{
  Error, State, initializing, running, canceling, canceled, finished, failed, unsupported,
  cannot_update, cannot_delete, cannot_start, cannot_stop, cannot_advance, failure_required,
  failure_not_allowed, stale_epoch,
}
use astra_sync.Job.Spec.{Spec, validate_spec}
use astra_sync.Job.Status.{
  Failure, Time, stopped, started, desires_running, desires_stopped, executes, is_failed,
  is_running, active, terminal, state_eq,
}
use astra_sync.Job.Model.{Job}

unfoldable pub replace_spec : Job → Spec → Time → Result Error Job
replace_spec j s now = do
  validate_spec s
  check (active j.state) (cannot_update j.state)
  ok (record j { spec = s; updated_at = now })

unfoldable pub deletable : Job → Result Error (Unit {0})
deletable j = check (active j.state) (cannot_delete j.state)

unfoldable pub validate_epoch_monotonicity : Job → Job → Result Error (Unit {0})
validate_epoch_monotonicity current candidate =
    check (int_lt candidate.epoch current.epoch) (stale_epoch current.epoch candidate.epoch)

-- The job after a start that is accepted.
abbrev pub launched : Job → Time → Job
launched j now = record j {
  status = record j.status {
    restart_count = if is_positive j.epoch then inc32 j.restart_count else j.restart_count;
    epoch = inc64 j.epoch;
    desired = started;
    state = initializing;
    start_time = some now;
    end_time = none;
    failure = none;
  };
  updated_at = now;
}

-- The `switch` of `RequestStart`: whether the state lets a start through.
abbrev pub start_allowed : State → Bool
start_allowed canceling = false
start_allowed (unsupported s) = false
start_allowed _ = true

-- The Boolean says whether the job changed.
unfoldable pub request_start : Job → Time → Result Error (Job × Bool)
request_start j now =
    if desires_running j.desired && executes j.state
    then ok (j, false)
    else (if start_allowed j.state
        then (if executes j.state && desires_running j.desired
            then ok (j, false)
            else ok (launched j now, true))
        else err (cannot_start j.state))

-- A running job goes over to CANCELING; a terminal one only changes what is desired of it.
abbrev pub canceling_job : Job → Time → Job
canceling_job j now = record j {
  status = record j.status { desired = stopped; state = canceling };
  updated_at = now;
}

abbrev pub undesired_job : Job → Time → Job
undesired_job j now = record j { status = record j.status { desired = stopped }; updated_at = now }

-- The `switch` of `RequestStop`.
abbrev pub stop_branch : State → Job → Time → Result Error (Job × Bool)
stop_branch initializing j now = ok (canceling_job j now, true)
stop_branch running j now = ok (canceling_job j now, true)
stop_branch canceled j now = ok (undesired_job j now, true)
stop_branch finished j now = ok (undesired_job j now, true)
stop_branch failed j now = ok (undesired_job j now, true)
stop_branch s j now = err (cannot_stop s)

unfoldable pub request_stop : Job → Time → Result Error (Job × Bool)
request_stop j now = if desires_stopped j.desired then ok (j, false) else stop_branch j.state j now

unfoldable pub allowed_transition : State → State → Bool
allowed_transition initializing next = is_running next || is_failed next
allowed_transition running finished = true
allowed_transition running next = is_failed next
allowed_transition canceling canceled = true
allowed_transition canceling next = is_failed next
allowed_transition _ next = false

-- The job after an advance that is accepted.
abbrev pub advanced : Job → State → Option Failure → Time → Job
advanced j next f now = record j {
  status = record j.status {
    state = next;
    failure = f;
    end_time = if terminal next then some now else (if is_running next then none else j.end_time);
    desired = if terminal next then stopped else j.desired;
  };
  updated_at = now;
}

unfoldable pub advance : Job → ℤ → State → Option Failure → Time → Result Error (Job × Bool)
advance j supplied next f now = do
  check (not (int_eq supplied j.epoch)) (stale_epoch j.epoch supplied)
  if state_eq next j.state then ok (j, false) else do
    check (not (allowed_transition j.state next)) (cannot_advance j.state next)
    check (is_failed next && not (is_set f)) failure_required
    check (not (is_failed next) && is_set f) failure_not_allowed
    ok (advanced j next f now, true)
