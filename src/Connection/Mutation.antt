-- ===== src/Connection/Mutation.antt =====
-- What the repository is asked for and what it answers, control-plane/connection/repository.go.
use astra_sync.Prelude.{
  ℕ, ℤ, Text, is_blank, Bool, not, ◌||◌, Option, length, ltb, ◌==◌, Result, check, Map,
}
use astra_sync.Job.Status.{Time}
use astra_sync.Job.Mutation.{matches_revision}
use astra_sync.Connection.Error.{Error, identity_invalid}
use astra_sync.Connection.Model.{Connection}
use astra_sync.Connection.Operation.{TestOperation}

pub data MutationKind : Type 0 where
  create_kind update_kind rotate_kind enable_kind disable_kind delete_kind test_kind : MutationKind
  unsupported_kind : Text → MutationKind

pub record MutationIdentity : Type 0 where
  pub actor_id : Text
  pub method : Text
  pub key_fingerprint : Text
  pub request_digest : Text
  pub request_id : Text
  pub audit_event_id : Text
  pub occurred_at : Time

abbrev too_long : ℕ → Text → Bool
too_long most s = is_blank s || ltb most (length s)

unfoldable pub validate_identity : MutationIdentity → Result Error (Unit {0})
validate_identity i =
    check
      (too_long 256 i.actor_id
        || (too_long 256 i.method
            || (not (matches_revision i.key_fingerprint)
                || (not (matches_revision i.request_digest)
                    || (too_long 128 i.request_id
                        || (too_long 128 i.audit_event_id || (i.occurred_at == 0)))))))
      identity_invalid

-- A value of an audit attribute.
pub data Attribute : Type 0 where
  text_attribute : Text → Attribute
  int_attribute : ℤ → Attribute

pub record Mutation : Type 0 where
  pub kind : MutationKind
  pub mutation_tenant : Text
  pub mutation_name : Text
  pub expected_version : ℤ
  pub candidate : Option Connection
  pub test : Option TestOperation
  pub identity : MutationIdentity
  pub audit_attributes : Map Text Attribute

pub data Outcome : Type 0 where
  changed no_change replayed : Outcome

pub record Tombstone : Type 0 where
  pub buried_tenant : Text
  pub buried_name : Text
  pub buried_uid : Text
  pub deleted_at : Time

pub record MutationResult : Type 0 where
  pub stored_connection : Option Connection
  pub stored_test : Option TestOperation
  pub tombstone : Option Tombstone
  pub outcome : Outcome

pub record ReferenceCounts : Type 0 where
  pub job_count : ℤ
  pub execution_count : ℤ
  pub test_count : ℤ
  pub cleanup_count : ℤ
