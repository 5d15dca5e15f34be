-- ===== src/Connection/Model.antt =====
-- The connection of control-plane/connection/model.go: `New`, `Validate` and the edits `Replace`,
-- `Rotate` and `SetState`, which return the record to store and whether it differs.
use astra_sync.Prelude.{
  ℕ, ℤ, pos, Text, text_eq, Bool, true, false, not, ◌&&◌, ◌||◌, List, length, ltb, is_positive,
  inc64, ◌==◌, if◌then◌else◌, Result, ok, err, check, ◌>>◌,
}
use astra_sync.Job.Spec.{matches_dns_label, matches_connector_name}
use astra_sync.Job.Status.{Time}
use astra_sync.Connection.Error.{
  Error, invalid_transition, tenant_invalid, name_invalid, uid_invalid, connector_invalid,
  version_or_state_invalid, display_invalid, timestamps_invalid,
}
use astra_sync.Connection.Settings.{
  Setting, Locator, Generation, contains_any, validate_locator, validate_generation, equal_settings,
  equal_locator,
}

abbrev pub maximum_description : ℕ
maximum_description = 2048

abbrev pub maximum_display_name : ℕ
maximum_display_name = 256

pub data State : Type 0 where
  disabled active : State
  other_state : Text → State

pub data Compatibility : Type 0 where
  compatible revalidation_required connector_unavailable : Compatibility
  other_compatibility : Text → Compatibility

unfoldable pub state_eq : State → State → Bool
state_eq disabled disabled = true
state_eq active active = true
state_eq (other_state a) (other_state b) = text_eq a b
state_eq _ _ = false

abbrev known_state : State → Bool
known_state (other_state s) = false
known_state _ = true

abbrev pub is_disabled : State → Bool
is_disabled disabled = true
is_disabled _ = false

abbrev is_active : State → Bool
is_active active = true
is_active _ = false

abbrev is_compatible : Compatibility → Bool
is_compatible compatible = true
is_compatible _ = false

pub record Connection : Type 0 where
  pub tenant_id : Text
  pub connection_name : Text
  pub uid : Text
  pub connector : Text
  pub version : ℤ
  pub state : State
  pub display_name : Text
  pub description : Text
  pub current : Generation
  pub created_at : Time
  pub updated_at : Time

abbrev has_nul : Text → Bool
has_nul = contains_any (λ c. c == 0)

-- The next version of `c` with these texts.
abbrev pub renamed : Connection → Text → Text → Time → Connection
renamed c display about now = record c {
  display_name = display;
  description = about;
  version = inc64 c.version;
  updated_at = now;
}

-- `c` with the generation that follows its own.
abbrev pub regenerated : Connection → List Setting → Locator → Text → Text → Time → Connection
regenerated c s l descriptor schema now = record c {
  current = record {
    number = inc64 c.current.number;
    descriptor_revision = descriptor;
    schema_revision = schema;
    settings = s;
    locator = l;
    generated_at = now;
  };
}

-- The next version of `c` in another state.
abbrev pub in_state : Connection → State → Time → Connection
in_state c target now = record c { state = target; version = inc64 c.version; updated_at = now }

module _ (is_uuid : Text → Bool) where
  unfoldable pub validate_connection : Connection → Result Error (Unit {0})
  validate_connection c = do
    check (not (is_uuid c.tenant_id)) tenant_invalid
    check
        ((length c.connection_name == 0)
          || (ltb 63 (length c.connection_name) || not (matches_dns_label c.connection_name)))
        name_invalid
    check (not (is_uuid c.uid)) uid_invalid
    check
        ((length c.connector == 0)
          || (ltb 128 (length c.connector) || not (matches_connector_name c.connector)))
        connector_invalid
    check
        (not (is_positive c.version)
          || (not (is_positive c.current.number) || not (known_state c.state)))
        version_or_state_invalid
    check
        (ltb maximum_display_name (length c.display_name)
          || (ltb maximum_description (length c.description)
              || (has_nul c.display_name || has_nul c.description)))
        display_invalid
    validate_generation is_uuid c.current
    check
        ((c.created_at == 0)
          || ((c.updated_at == 0)
              || (ltb c.updated_at c.created_at
                  || (ltb c.current.generated_at c.created_at
                      || ltb c.updated_at c.current.generated_at))))
        timestamps_invalid

  unfoldable pub new_connection :
      Text → Text → Text → Text → Text → Text → Generation → Time → Result Error Connection
  new_connection tenant n u kind display about generation now =
      let c : Connection = record {
        tenant_id = tenant;
        connection_name = n;
        uid = u;
        connector = kind;
        version = pos 1;
        state = disabled;
        display_name = display;
        description = about;
        current = generation;
        created_at = now;
        updated_at = now;
      } in
      validate_connection c >> ok c

  -- The record of an edit, if it is valid.
  abbrev edited : Connection → Result Error (Connection × Bool)
  edited next = validate_connection next >> ok (next, true)

  unfoldable pub replace :
      Connection
      → Text
      → Text
      → List Setting
      → Text
      → Text
      → Time
      → Result Error (Connection × Bool)
  replace c display about s descriptor schema now =
      let effective_changed =
        not (equal_settings c.current.settings s)
        || (not (text_eq c.current.descriptor_revision descriptor)
            || not (text_eq c.current.schema_revision schema)) in
      let metadata_changed =
        not (text_eq c.display_name display) || not (text_eq c.description about) in
      if not effective_changed && not metadata_changed
      then ok (c, false)
      else (if effective_changed
          then (if not (is_disabled c.state)
              then err invalid_transition
              else edited (
                  regenerated (renamed c display about now) s c.current.locator descriptor schema
                    now))
          else edited (renamed c display about now))

  unfoldable pub rotate : Connection → Locator → Text → Text → Time → Result Error Connection
  rotate c l descriptor schema now =
      let next =
        regenerated (renamed c c.display_name c.description now) c.current.settings l descriptor
          schema now in
      do
        validate_locator is_uuid l
        check (equal_locator c.current.locator l) invalid_transition
        validate_connection next
        ok next

  unfoldable pub set_state :
      Connection → State → Compatibility → Time → Result Error (Connection × Bool)
  set_state c target compatibility now =
      if not (known_state target)
      then err invalid_transition
      else (if state_eq c.state target
          then ok (c, false)
          else (if is_active target && not (is_compatible compatibility)
              then err invalid_transition
              else edited (in_state c target now)))
