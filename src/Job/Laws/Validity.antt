-- ===== src/Job/Laws/Validity.antt =====
-- The validation of a status against an independent description of a well-formed one.
use astra_sync.Prelude.{
  ℕ, ℤ, pos, ◌≢◌, true, false, Option, none, is_set, is_neg, is_positive, ok, ◌≡◌, ◌↔◌, ◌⊎◌, arith,
}
use astra_sync.Job.Error.{State, created, failed}
use astra_sync.Job.Status.{
  Status, DesiredState, stopped, started, executes, terminal, failure_bad, checkpoint_bad,
  is_supported, validate_status,
}

-- Exactly the two executing states desire to run; the other five desire to be stopped.
abbrev pub DesiredFits : State → DesiredState → Type 0
DesiredFits s d = ((executes s ≡ true) × (d ≡ started)) ⊎ ((executes s ≡ false) × (d ≡ stopped))

-- A job has run once, and knows when, unless it is still CREATED.
abbrev pub EpochFits : State → ℤ → Option ℕ → Type 0
EpochFits s e t =
    ((s ≡ created) × (e ≡ pos 0) × (t ≡ none))
    ⊎ ((s ≢ created) × (is_positive e ≡ true) × (is_set t ≡ true))

pub record IsWellFormed (s : Status) : Type 0 where
  pub supported : is_supported s.state ≡ true
  pub desired_fits : DesiredFits s.state s.desired
  pub epoch_fits : EpochFits s.state s.epoch s.start_time
  pub restarts_counted : is_neg s.restart_count ≡ false
  pub end_time_fits : is_set s.end_time ≡ terminal s.state
  pub failure_fits : (s.state ≡ failed) ↔ (is_set s.failure ≡ true)
  pub failure_complete : failure_bad s.failure ≡ false
  pub checkpoint_sound : checkpoint_bad s.last_checkpoint ≡ false

-- `Status.Validate` accepts a status exactly when it is well formed.
pub validate_status_iff : (s : Status) → (validate_status s ≡ ok tt) ↔ IsWellFormed s
unfolding validate_status
validate_status_iff s = ground arith
