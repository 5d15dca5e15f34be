-- ===== src/Job/Samples.antt =====
-- Concrete records of jobs for the tests.
use astra_sync.Prelude.{pos, [], length, Text, codes, Bool, none, some, ◌==◌, arith}
use astra_sync.Job.Error.{created, initializing, running, canceling}
use astra_sync.Job.Spec.{Key, Spec, ConnectorSpec, at_least_once}
use astra_sync.Job.Status.{Status, stopped, started, terminal}
use astra_sync.Job.Model.{Job}
use astra_sync.Job.Laws.Validity.{IsWellFormed}

-- The form of a UUID as far as its length shows it.
abbrev pub uuid_like : Text → Bool
uuid_like s = length s == 36

abbrev pub sample_uid : Text
sample_uid = codes "0f8fad5b-d9cb-469f-a165-70867728950e"

abbrev pub orders_key : Key
orders_key = record { key_namespace = codes "sales"; key_name = codes "orders" }

abbrev pub plain : Text → ConnectorSpec
plain c = record { connector = c; connection_ref = []; connector_options = [] }

abbrev pub sample_spec : Spec
sample_spec = record {
  source_spec = plain (codes "mysql-cdc");
  sink_spec = plain (codes "kafka");
  transforms = [];
  guarantee = at_least_once;
  max_batch_records = pos 500;
}

abbrev pub idle_status : Status
idle_status = record {
  desired = stopped;
  state = created;
  epoch = pos 0;
  restart_count = pos 0;
  start_time = none;
  end_time = none;
  last_checkpoint = none;
  failure = none;
}

abbrev pub idle_job : Job
idle_job = record {
  key = orders_key;
  uid = sample_uid;
  version = pos 1;
  spec = sample_spec;
  status = idle_status;
  created_at = 100;
  updated_at = 100;
}

abbrev pub started_job : Job
started_job = record idle_job {
  status = record idle_status {
    desired = started;
    state = initializing;
    epoch = pos 1;
    start_time = some 200;
  };
  updated_at = 200;
}

abbrev pub running_job : Job
running_job = record started_job {
  status = record started_job.status { state = running };
  updated_at = 300;
}

abbrev pub stopping_job : Job
stopping_job = record running_job {
  status = record running_job.status { desired = stopped; state = canceling };
  updated_at = 400;
}

pub idle-IsWellFormed : IsWellFormed idle_status
unfolding terminal
idle-IsWellFormed = ground arith

pub running-IsWellFormed : IsWellFormed running_job.status
unfolding terminal
running-IsWellFormed = ground arith

pub stopping-IsWellFormed : IsWellFormed stopping_job.status
unfolding terminal
stopping-IsWellFormed = ground arith
