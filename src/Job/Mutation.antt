-- ===== src/Job/Mutation.antt =====
-- control-plane/job/mutation.go: what a public mutation of a job must look like before a repository
-- applies it.
use astra_sync.Prelude.{
  ℕ, ℤ, Text, text_eq, is_blank, is_hex, codes, Bool, true, false, not, ◌&&◌, ◌||◌, Option, none,
  some, is_set, is_positive, is_zero, ◌==◌, ltb, List, [], ◌∷◌, length, take, drop, all_of, Result,
  ok, err, check, ◌>>◌,
}
use astra_sync.Job.Error.{
  Error, connection_reference, binding_role_invalid, binding_tenant_invalid, binding_uid_invalid,
  binding_revision_invalid, fence_invalid, duplicate_role, identity_invalid,
  mutation_tenant_invalid, too_many_attributes, create_with_version, create_uid_invalid,
  create_incomplete, update_incomplete, start_incomplete, stop_shape_invalid, unsupported_mutation,
}
use astra_sync.Job.Spec.{
  Key, Spec, validate_key, validate_spec, validate_dns_label, matches_connector_name,
}
use astra_sync.Job.Status.{Time}

-- `^sha256:[0-9a-f]{64}$`
unfoldable pub matches_revision : Text → Bool
matches_revision s =
    text_eq (take 7 s) (codes "sha256:") && ((length (drop 7 s) == 64) && all_of is_hex (drop 7 s))

pub data MutationKind : Type 0 where
  create_kind update_kind delete_kind start_kind stop_kind : MutationKind
  unsupported_kind : Text → MutationKind

pub data ConnectionRole : Type 0 where
  source_role sink_role : ConnectionRole
  unsupported_role : Text → ConnectionRole

pub record ConnectionBinding : Type 0 where
  pub role : ConnectionRole
  pub binding_tenant : Text
  pub reference_name : Text
  pub connection_uid : Text
  pub binding_connector : Text
  pub generation : ℤ
  pub descriptor_revision : Text
  pub connection_schema_revision : Text

pub record ValidationFence : Type 0 where
  pub validation_id : Text
  pub spec_digest : Text
  pub compiler_revision : Text
  pub bindings : List ConnectionBinding

pub record MutationIdentity : Type 0 where
  pub actor_id : Text
  pub method : Text
  pub key_fingerprint : Text
  pub request_digest : Text
  pub request_id : Text
  pub audit_event_id : Text
  pub occurred_at : Time

-- Of the audit attributes only their number matters here.
pub record Mutation : Type 0 where
  pub kind : MutationKind
  pub tenant_id : Text
  pub mutation_key : Key
  pub expected_version : ℤ
  pub mutation_uid : Text
  pub mutation_spec : Option Spec
  pub validation : Option ValidationFence
  pub identity : MutationIdentity
  pub audit_attributes : ℕ

abbrev known_role : ConnectionRole → Bool
known_role (unsupported_role r) = false
known_role _ = true

unfoldable pub role_eq : ConnectionRole → ConnectionRole → Bool
role_eq source_role source_role = true
role_eq sink_role sink_role = true
role_eq (unsupported_role a) (unsupported_role b) = text_eq a b
role_eq _ _ = false

unfoldable pub seen_role : ConnectionRole → List ConnectionRole → Bool
seen_role r [] = false
seen_role r (q ∷ qs) = role_eq q r || seen_role r qs

abbrev too_long : ℕ → Text → Bool
too_long most s = is_blank s || ltb most (length s)

unfoldable pub validate_identity : MutationIdentity → Result Error (Unit {0})
validate_identity i =
    check
      (too_long 256 i.actor_id
        || (too_long 256 i.method
            || (not (matches_revision i.key_fingerprint)
                || (not (matches_revision i.request_digest)
                    || (too_long 128 i.request_id
                        || (too_long 128 i.audit_event_id || (i.occurred_at == 0)))))))
      identity_invalid

module _ (is_uuid : Text → Bool) where
  unfoldable pub validate_binding : ConnectionBinding → Result Error (Unit {0})
  validate_binding b = do
    check (not (known_role b.role)) binding_role_invalid
    check (not (is_uuid b.binding_tenant)) binding_tenant_invalid
    validate_dns_label connection_reference b.reference_name
    check (not (is_uuid b.connection_uid)) binding_uid_invalid
    check
        (ltb 128 (length b.binding_connector)
          || (not (matches_connector_name b.binding_connector)
              || (not (is_positive b.generation)
                  || (not (matches_revision b.descriptor_revision)
                      || not (matches_revision b.connection_schema_revision)))))
        binding_revision_invalid

  -- The loop over the bindings; `roles` holds the roles met so far.
  unfoldable pub validate_bindings :
      List ConnectionRole → List ConnectionBinding → Result Error (Unit {0})
  validate_bindings roles [] = ok tt
  validate_bindings roles (b ∷ bs) =
      validate_binding b
      >> check (seen_role b.role roles) duplicate_role
      >> validate_bindings (b.role ∷ roles) bs

  unfoldable pub validate_fence : ValidationFence → Result Error (Unit {0})
  validate_fence f = do
    check
        (too_long 128 f.validation_id
          || (not (matches_revision f.spec_digest)
              || (not (matches_revision f.compiler_revision) || ltb 2 (length f.bindings))))
        fence_invalid
    validate_bindings [] f.bindings

  -- The `switch` over the kind.
  unfoldable pub validate_shape : MutationKind → Mutation → Result Error (Unit {0})
  validate_shape create_kind m = do
    check (not (is_zero m.expected_version)) create_with_version
    check (not (is_uuid m.mutation_uid)) create_uid_invalid
    check (not (is_set m.mutation_spec) || not (is_set m.validation)) create_incomplete
  validate_shape update_kind m =
      check
        (not (is_positive m.expected_version)
          || (not (is_set m.mutation_spec) || not (is_set m.validation)))
        update_incomplete
  validate_shape start_kind m =
      check
        (not (is_positive m.expected_version)
          || (is_set m.mutation_spec || not (is_set m.validation)))
        start_incomplete
  validate_shape stop_kind m =
      check
        (not (is_positive m.expected_version) || (is_set m.mutation_spec || is_set m.validation))
        stop_shape_invalid
  validate_shape delete_kind m =
      check
        (not (is_positive m.expected_version) || (is_set m.mutation_spec || is_set m.validation))
        stop_shape_invalid
  validate_shape (unsupported_kind k) m = err unsupported_mutation

  abbrev if_set {ℓ} :
      {A : Type ℓ} → Option A → (A → Result Error (Unit {0})) → Result Error (Unit {0})
  if_set none f = ok tt
  if_set (some a) f = f a

  unfoldable pub validate_mutation : Mutation → Result Error (Unit {0})
  validate_mutation m = do
    check (not (is_uuid m.tenant_id)) mutation_tenant_invalid
    validate_key m.mutation_key
    validate_identity m.identity
    check (ltb 32 m.audit_attributes) too_many_attributes
    validate_shape m.kind m
    if_set m.mutation_spec validate_spec
    if_set m.validation validate_fence
