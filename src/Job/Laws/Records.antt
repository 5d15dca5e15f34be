-- ===== src/Job/Laws/Records.antt =====
-- Whole records: their validation, new ones, and those that the operations return.
use astra_sync.Prelude.{◌≤◌, ◌<◌, Text, Bool, true, is_positive, ok, ◌≡◌, ◌↔◌, ◌⊎◌, arith}
use astra_sync.Job.Spec.{Key, Spec, validate_key, validate_spec}
use astra_sync.Job.Status.{Time, terminal}
use astra_sync.Job.Model.{Job, new_job, validate_job}
use astra_sync.Job.Lifecycle.{request_start, request_stop, replace_spec}
use astra_sync.Job.Laws.Validity.{IsWellFormed, validate_status_iff}
use astra_sync.Job.Laws.Transitions.{advance-ok_iff}
use astra_sync.Job.Laws.Runs.{Step, start, stop, report, respec, Step-Keeps}

module _ (is_uuid : Text → Bool) where
  pub record IsValid (j : Job) : Type 0 where
    pub key_valid : validate_key j.key ≡ ok tt
    pub uid_valid : is_uuid j.uid ≡ true
    pub version_positive : is_positive j.version ≡ true
    pub spec_valid : validate_spec j.spec ≡ ok tt
    pub status_valid : IsWellFormed j.status
    pub created_set : 0 < j.created_at
    pub updated_later : j.created_at ≤ j.updated_at

  -- `Job.Validate` accepts exactly the records that are valid part by part.
  pub validate_job_iff : (j : Job) → (validate_job is_uuid j ≡ ok tt) ↔ IsValid j
  unfolding validate_job
  validate_job_iff j = (to, of)
    where
      to : validate_job is_uuid j ≡ ok tt → IsValid j
      to h = record {
        key_valid = ground arith;
        uid_valid = ground arith;
        version_positive = ground arith;
        spec_valid = ground arith;
        status_valid = (validate_status_iff j.status).0 (ground arith);
        created_set = ground arith;
        updated_later = ground arith;
      }

      of : IsValid j → validate_job is_uuid j ≡ ok tt
      of v = ground (arith, v, (validate_status_iff j.status).1 v.status_valid)

  -- `New` returns a valid job, in the state CREATED, whenever it returns one at a time that is set.
  pub new_job-IsValid :
      (k : Key) (u : Text) (s : Spec) (now : Time) (j : Job)
      → 0 < now
      → new_job is_uuid k u s now ≡ ok j
      → IsValid j
  unfolding new_job terminal
  new_job-IsValid k u s now j p h = record {
    key_valid = ground arith;
    uid_valid = ground arith;
    version_positive = ground arith;
    spec_valid = ground arith;
    status_valid = ground arith;
    created_set = ground arith;
    updated_later = ground arith;
  }

-- When a step was made.
abbrev pub step_time : {j k : Job} → Step j k → Time
step_time (start now changed room h) = now
step_time (stop now changed h) = now
step_time (report supplied to f now changed fb h) = now
step_time (respec s now h) = now

-- What every operation leaves alone.
record Frame (j k : Job) (now : Time) : Type 0 where
  same_key : k.key ≡ j.key
  same_uid : k.uid ≡ j.uid
  same_version : k.version ≡ j.version
  same_creation : k.created_at ≡ j.created_at
  spec_checked : (k.spec ≡ j.spec) ⊎ (validate_spec k.spec ≡ ok tt)
  stamped : (k.updated_at ≡ j.updated_at) ⊎ (k.updated_at ≡ now)

Step-Frame : {j k : Job} (st : Step j k) → Frame j k (step_time st)
unfolding request_start request_stop replace_spec
Step-Frame (start now changed room h) = ground arith
Step-Frame (stop now changed h) = ground arith
Step-Frame {j} {k} (report supplied to f now changed fb h) =
    ground (arith, (advance-ok_iff j supplied to f now k changed).0 h)
Step-Frame (respec s now h) = ground arith

-- An accepted operation, made no earlier than the job's creation, keeps the record valid.
pub Step-IsValid :
    (is_uuid : Text → Bool) {j k : Job} (st : Step j k)
    → IsValid is_uuid j
    → j.created_at ≤ step_time st
    → IsValid is_uuid k
Step-IsValid is_uuid {j} {k} st v later =
    let fr = Step-Frame st in
    record {
      key_valid = rw fr.same_key v.key_valid;
      uid_valid = rw fr.same_uid v.uid_valid;
      version_positive = rw fr.same_version v.version_positive;
      spec_valid = ground (arith, fr, v.spec_valid);
      status_valid = (Step-Keeps v.status_valid st).well_formed;
      created_set = omega (arith, fr.same_creation, v.created_set);
      updated_later = omega (arith, fr.same_creation, fr.stamped, v.updated_later);
    }
