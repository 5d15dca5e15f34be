-- ===== src/Job/Model.antt =====
-- The job record of control-plane/job/model.go: `New` and `Validate`. Whether a text parses as a
-- UUID is the library github.com/google/uuid's answer, the parameter `is_uuid`.
use astra_sync.Prelude.{
  ℤ, pos, Text, Bool, not, ◌||◌, none, is_positive, ◌==◌, ltb, Result, ok, check, ◌>>◌,
}
use astra_sync.Job.Error.{
  Error, created, uid_not_uuid, version_not_positive, timestamps_unset, updated_before_created,
}
use astra_sync.Job.Spec.{Key, Spec, validate_key, validate_spec}
use astra_sync.Job.Status.{Status, Time, stopped, validate_status}

pub record Job : Type 0 where
  pub key : Key
  pub uid : Text
  pub version : ℤ
  pub spec : Spec
  pub status : Status
  pub open status use *
  pub created_at : Time
  pub updated_at : Time

unfoldable pub new_job : (Text → Bool) → Key → Text → Spec → Time → Result Error Job
new_job is_uuid k u s now = do
  validate_key k
  check (not (is_uuid u)) uid_not_uuid
  validate_spec s
  ok (record {
    key = k;
    uid = u;
    version = pos 1;
    spec = s;
    status = record {
      desired = stopped;
      state = created;
      epoch = pos 0;
      restart_count = pos 0;
      start_time = none;
      end_time = none;
      last_checkpoint = none;
      failure = none;
    };
    created_at = now;
    updated_at = now;
  })

unfoldable pub validate_job : (Text → Bool) → Job → Result Error (Unit {0})
validate_job is_uuid j = do
  validate_key j.key
  check (not (is_uuid j.uid)) uid_not_uuid
  check (not (is_positive j.version)) version_not_positive
  validate_spec j.spec
  validate_status j.status
  check ((j.created_at == 0) || (j.updated_at == 0)) timestamps_unset
  check (ltb j.updated_at j.created_at) updated_before_created
