-- ===== src/Job/Tests.antt =====
-- The theorems on jobs at concrete records, and runs of the code of control-plane/job.
use astra_sync.Prelude.{
  text_eq, all_of, is_blank, is_label, space_width, pos, ◌≡◌, ◌↔◌, [], ◌∷◌, Text, codes, Bool, true,
  none, some, ok, err, refl, arith,
}
use astra_sync.Job.Error.{running, conflict}
use astra_sync.Job.Spec.{
  validate_key, validate_spec, validate_options, validate_transforms, validate_dns_label,
  matches_dns_label, matches_connector_name,
}
use astra_sync.Job.Status.{stopped, executes, terminal, state_eq, validate_status}
use astra_sync.Job.Model.{Job, new_job, validate_job}
use astra_sync.Job.Lifecycle.{
  request_start, request_stop, advance, validate_epoch_monotonicity, allowed_transition,
}
use astra_sync.Job.Memory.{Repository, find, put, update, update_stored, key_eq}
use astra_sync.Job.Mutation.{
  Mutation, ValidationFence, ConnectionBinding, stop_kind, source_role, sink_role,
  validate_mutation, validate_fence, validate_identity, validate_shape, validate_bindings,
  validate_binding, matches_revision, role_eq, seen_role,
}
use astra_sync.Job.Laws.Validity.{IsWellFormed, validate_status_iff}
use astra_sync.Job.Laws.Reports.{Reports, advance-Reports}
use astra_sync.Job.Laws.Transitions.{HasRoom, request_stop-succeeds}
use astra_sync.Job.Laws.Runs.{start, stop, report, Run, here, next, Keeps, Run-Keeps}
use astra_sync.Job.Laws.Records.{IsValid, Step-IsValid}
use astra_sync.Job.Laws.Store.{update-update}
use astra_sync.Job.Laws.History.{History, untouched, edited, updates, Lives, History-Lives}
use astra_sync.Job.Samples.{
  uuid_like, sample_uid, orders_key, sample_spec, idle_job, started_job, running_job, stopping_job,
  idle-IsWellFormed, running-IsWellFormed,
}

validate_status_iff_example :
    (validate_status running_job.status ≡ ok tt) ↔ IsWellFormed running_job.status
validate_status_iff_example = validate_status_iff running_job.status

start_idle : request_start idle_job 200 ≡ ok (started_job, true)
unfolding request_start
start_idle = refl

report_running : advance started_job (pos 1) running none 300 ≡ ok (running_job, true)
unfolding advance allowed_transition state_eq terminal
report_running = refl

stop_running : request_stop running_job 400 ≡ ok (stopping_job, true)
unfolding request_stop
stop_running = refl

idle-HasRoom : HasRoom idle_job
idle-HasRoom = (refl, refl)

session : Run idle_job stopping_job
session =
    next
      (next (next here (start 200 true idle-HasRoom start_idle))
        (report (pos 1) running none 300 true refl report_running))
      (stop 400 true stop_running)

Run-Keeps_example : Keeps idle_job stopping_job
Run-Keeps_example = Run-Keeps {j = idle_job} {k = stopping_job} idle-IsWellFormed session

request_stop-succeeds_example :
    (k : Job) × (changed : Bool) × (request_stop running_job 400 ≡ ok (k, changed))
    × IsWellFormed k.status
    × (k.desired ≡ stopped)
    × (k.epoch ≡ running_job.epoch)
    × ((changed ≡ true) ↔ (executes running_job.state ≡ true))
request_stop-succeeds_example = request_stop-succeeds running_job 400 running-IsWellFormed

advance-Reports_example :
    (advance started_job (pos 1) running none 300 ≡ ok (running_job, true))
    ↔ Reports started_job (pos 1) running none 300 running_job true
advance-Reports_example = advance-Reports started_job (pos 1) running none 300 running_job true

idle-IsValid : IsValid uuid_like idle_job
unfolding validate_key validate_spec is_label validate_options validate_transforms
idle-IsValid = record {
  key_valid = refl;
  uid_valid = refl;
  version_positive = refl;
  spec_valid = refl;
  status_valid = idle-IsWellFormed;
  created_set = omega arith;
  updated_later = omega arith;
}

new_idle : new_job uuid_like orders_key sample_uid sample_spec 100 ≡ ok idle_job
unfolding new_job validate_key validate_spec is_label validate_options validate_transforms
new_idle = refl

Step-IsValid_example : IsValid uuid_like started_job
Step-IsValid_example =
    Step-IsValid uuid_like {j = idle_job} {k = started_job} (start 200 true idle-HasRoom start_idle)
      idle-IsValid (omega arith)

-- The repository with the new job, and after the start is stored.
abbrev one_job : Repository
one_job = (orders_key, idle_job) ∷ []

abbrev stored_start : Job
stored_start = record started_job { version = pos 2 }

abbrev one_started : Repository
one_started = (orders_key, stored_start) ∷ []

update_idle : update uuid_like one_job started_job (pos 1) ≡ ok (one_started, stored_start)
unfolding update update_stored find put key_eq text_eq validate_job validate_key validate_spec
    validate_status validate_epoch_monotonicity terminal is_label validate_options
    validate_transforms
update_idle = refl

started_valid : validate_job uuid_like started_job ≡ ok tt
unfolding validate_job validate_key validate_spec validate_status terminal is_label validate_options
    validate_transforms
started_valid = refl

update-update_example : update uuid_like one_started started_job (pos 1) ≡ err conflict
update-update_example =
    update-update uuid_like one_job started_job (pos 1) one_started stored_start started_job
      update_idle started_valid refl

found_idle : find orders_key one_job ≡ some idle_job
unfolding find key_eq text_eq
found_idle = refl

one_update : History uuid_like orders_key one_job one_started
one_update = edited untouched (updates started_job (pos 1) stored_start update_idle)

History-Lives_example : Lives uuid_like orders_key idle_job one_started
History-Lives_example =
    History-Lives uuid_like orders_key {r = one_job} {s = one_started} {a = idle_job} found_idle
      one_update

abbrev sample_revision : Text
sample_revision = codes "sha256:0123456789abcdef0123456789abcdef0123456789abcdef0123456789abcdef"

abbrev sample_mutation : Mutation
sample_mutation = record {
  kind = stop_kind;
  tenant_id = sample_uid;
  mutation_key = orders_key;
  expected_version = pos 2;
  mutation_uid = [];
  mutation_spec = none;
  validation = none;
  identity = record {
    actor_id = codes "alice";
    method = codes "StopJob";
    key_fingerprint = sample_revision;
    request_digest = sample_revision;
    request_id = codes "r1";
    audit_event_id = codes "a1";
    occurred_at = 500;
  };
  audit_attributes = 1;
}

abbrev sample_binding : ConnectionBinding
sample_binding = record {
  role = source_role;
  binding_tenant = sample_uid;
  reference_name = codes "orders-db";
  connection_uid = sample_uid;
  binding_connector = codes "mysql-cdc";
  generation = pos 3;
  descriptor_revision = sample_revision;
  connection_schema_revision = sample_revision;
}

abbrev sample_fence : ValidationFence
sample_fence = record {
  validation_id = codes "v1";
  spec_digest = sample_revision;
  compiler_revision = sample_revision;
  bindings = sample_binding ∷ record sample_binding { role = sink_role } ∷ [];
}

mutation_accepted : validate_mutation uuid_like sample_mutation ≡ ok tt
unfolding validate_mutation validate_key validate_identity matches_revision text_eq all_of is_blank
    space_width validate_shape is_label
mutation_accepted = refl

fence_accepted : validate_fence uuid_like sample_fence ≡ ok tt
unfolding validate_fence validate_bindings validate_binding validate_dns_label matches_dns_label
    matches_connector_name matches_revision text_eq all_of is_blank space_width is_label role_eq
    seen_role
fence_accepted = refl
