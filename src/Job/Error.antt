-- ===== src/Job/Error.antt =====
-- The errors of control-plane/job: one constructor for each message, with the values that it
-- prints. `is_invalid_transition` and `is_stale_epoch` are `errors.Is` against the sentinels.
use astra_sync.Prelude.{ℕ, ℤ, Text, Bool, true, false}

pub data State : Type 0 where
  created initializing running canceling canceled finished failed : State
  unsupported : Text → State

-- Where a label, a connector or an option map stands.
pub data Field : Type 0 where
  namespace name connection_reference source sink : Field
  transform : ℕ → Field

pub data Error : Type 0 where
  label_invalid connector_invalid blank_option_key : Field → Error
  blank_transform_type : ℕ → Error
  unsupported_guarantee batch_not_positive : Error
  uid_not_uuid version_not_positive timestamps_unset updated_before_created : Error
  unsupported_desired unsupported_state negative_counter : Error
  created_with_epoch missing_epoch desired_mismatch start_time_mismatch : Error
  end_time_mismatch failure_mismatch failure_incomplete checkpoint_invalid : Error
  cannot_update cannot_delete cannot_start cannot_stop : State → Error
  cannot_advance : State → State → Error
  failure_required failure_not_allowed : Error
  stale_epoch : ℤ → ℤ → Error
  already_exists not_found conflict page_invalid slice_out_of_range : Error
  binding_role_invalid binding_tenant_invalid binding_uid_invalid binding_revision_invalid : Error
  fence_invalid duplicate_role identity_invalid mutation_tenant_invalid too_many_attributes : Error
  create_with_version create_uid_invalid create_incomplete update_incomplete : Error
  start_incomplete stop_shape_invalid unsupported_mutation : Error

abbrev pub is_invalid_transition : Error → Bool
is_invalid_transition (cannot_update s) = true
is_invalid_transition (cannot_delete s) = true
is_invalid_transition (cannot_start s) = true
is_invalid_transition (cannot_stop s) = true
is_invalid_transition (cannot_advance s t) = true
is_invalid_transition failure_required = true
is_invalid_transition failure_not_allowed = true
is_invalid_transition _ = false

abbrev pub is_stale_epoch : Error → Bool
is_stale_epoch (stale_epoch current supplied) = true
is_stale_epoch _ = false
