-- ===== src/Connection/Samples.antt =====
-- Data for the tests of the package connection. The libraries are stood in for by simple functions: a
-- UUID is a text of 36 bytes, a prefix is its own canonical form, and every digest is the same.
use astra_sync.Prelude.{
  ℕ, zero, suc, ℤ, pos, Text, codes, ◌==◌, length, Option, none, some, true, false, [], ◌∷◌,
}
use astra_sync.Connection.Settings.{public_setting, restricted, other_provider, Generation}
use astra_sync.Connection.Model.{Connection, disabled, renamed}
use astra_sync.Connection.Policy.{Outside}
use astra_sync.Connection.Operation.{
  TestOperation, queued, succeeded, complete, result_ok, no_phase, no_code, Completion,
}
use astra_sync.Connection.Mutation.{
  Mutation, MutationIdentity, MutationKind, create_kind, update_kind, test_kind, MutationResult,
  changed,
}

abbrev pub zeros : ℕ → Text
zeros zero = []
zeros (suc n) = 48 ∷ zeros n

abbrev pub sample_outside : Outside
sample_outside = record {
  is_uuid = λ s. length s == 36;
  masked_prefix = λ s. some s;
  sha256_hex = λ s. zeros 64;
}

abbrev pub sample_tenant : Text
sample_tenant = codes "0b5e8e6c-1f0a-4d55-9a43-6f1f6a3f8a01"

abbrev pub sample_uid : Text
sample_uid = codes "5f0c2f34-97a1-4c0e-8f6e-3d2b7a9c1e02"

abbrev pub sample_operation : Text
sample_operation = codes "9c8d7e6f-5a4b-4c3d-8e2f-1a0b9c8d7e03"

abbrev pub sample_revision : Text
sample_revision = codes "sha256:0000000000000000000000000000000000000000000000000000000000000000"

abbrev pub sample_generation : Generation
sample_generation = record {
  number = pos 1;
  descriptor_revision = sample_revision;
  schema_revision = sample_revision;
  settings =
      record { setting_key = codes "host"; value = codes "db"; sensitivity = public_setting }
      ∷ record { setting_key = codes "port"; value = codes "5432"; sensitivity = restricted }
      ∷ [];
  locator = record { provider = other_provider []; secret_name = []; secret_uid = []; fields = [] };
  generated_at = 1000;
}

abbrev pub sample_connection : Connection
sample_connection = record {
  tenant_id = sample_tenant;
  connection_name = codes "orders";
  uid = sample_uid;
  connector = codes "postgres";
  version = pos 1;
  state = disabled;
  display_name = codes "Orders";
  description = [];
  current = sample_generation;
  created_at = 1000;
  updated_at = 1000;
}

abbrev pub sample_identity : Text → MutationIdentity
sample_identity request = record {
  actor_id = codes "ada";
  method = request;
  key_fingerprint = sample_revision;
  request_digest = sample_revision;
  request_id = codes "r";
  audit_event_id = codes "a";
  occurred_at = 1000;
}

abbrev pub sample_mutation :
    MutationKind → Text → ℤ → Option Connection → Option TestOperation → Mutation
sample_mutation k request expected c t = record {
  kind = k;
  mutation_tenant = sample_tenant;
  mutation_name = codes "orders";
  expected_version = expected;
  candidate = c;
  test = t;
  identity = sample_identity request;
  audit_attributes = [];
}

abbrev pub create_orders : Mutation
create_orders = sample_mutation create_kind (codes "create") (pos 0) (some sample_connection) none

-- Another request under the same key.
abbrev pub create_again : Mutation
create_again = record create_orders {
  identity = record (sample_identity (codes "create")) {
    request_digest =
        codes "sha256:1111111111111111111111111111111111111111111111111111111111111111";
  };
}

abbrev pub renamed_orders : Connection
renamed_orders = renamed sample_connection (codes "All orders") [] 2000

abbrev pub rename_orders : Mutation
rename_orders = sample_mutation update_kind (codes "update") (pos 1) (some renamed_orders) none

abbrev pub sample_test : TestOperation
sample_test = record {
  test_tenant = sample_tenant;
  operation_id = sample_operation;
  tested_uid = sample_uid;
  tested_generation = pos 1;
  tested_revision = sample_revision;
  test_actor = codes "ada";
  policy = record { revision = sample_revision; allowed_cidrs = [] };
  test_state = queued;
  phase = no_phase;
  result_code = no_code;
  success = false;
  remediation = [];
  requested_at = 3000;
  deadline_at = 9000;
  started_at = none;
  completed_at = none;
  expires_at = 90000;
}

abbrev pub test_orders : Mutation
test_orders = sample_mutation test_kind (codes "test") (pos 1) none (some sample_test)

abbrev pub sample_completion : Completion
sample_completion = record {
  final_state = succeeded;
  final_phase = complete;
  final_code = result_ok;
  final_success = true;
  final_remediation = [];
}

abbrev pub created_result : MutationResult
created_result = record {
  stored_connection = some sample_connection;
  stored_test = none;
  tombstone = none;
  outcome = changed;
}
