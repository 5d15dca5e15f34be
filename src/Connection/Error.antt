-- ===== src/Connection/Error.antt =====
-- The errors of control-plane/connection and of its in-memory repository: one constructor for each
-- message, and one for each panic.
use astra_sync.Prelude.{Text}

pub data Error : Type 0 where
  -- model.go
  not_found already_exists conflict invalid_transition in_use idempotency_reused : Error
  test_not_found test_lease_lost test_limit_exceeded : Error
  locator_invalid secret_uid_invalid field_count_invalid fields_invalid : Error
  generation_identity_invalid too_many_settings settings_invalid : Error
  tenant_invalid name_invalid uid_invalid connector_invalid version_or_state_invalid : Error
  display_invalid timestamps_invalid : Error
  -- test_policy.go
  policy_too_large policy_invalid_cidr policy_invalid policy_not_canonical : Error
  -- repository.go
  identity_invalid : Error
  snapshot_tenant_invalid snapshot_namespace_invalid snapshot_identity_invalid : Error
  work_operation_invalid work_generation_invalid work_lease_invalid : Error
  completion_state_invalid completion_result_invalid success_inconsistent : Error
  failure_inconsistent timeout_inconsistent : Error
  test_tenant_invalid test_operation_invalid test_identity_invalid queued_inconsistent : Error
  running_inconsistent terminal_times_inconsistent expired_inconsistent test_state_invalid : Error
  -- memory/repository.go
  list_limit_invalid create_identity_invalid candidate_required test_required test_mismatch : Error
  unsupported_mutation : Text → Error
  claim_invalid generation_unavailable completion_invalid : Error
  -- A write to a nil map, and `TenantID[:8]` of a shorter text.
  nil_map_write slice_out_of_range : Error
