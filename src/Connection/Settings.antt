-- ===== src/Connection/Settings.antt =====
-- Settings, secret locators and generations of control-plane/connection/model.go with their
-- validation. Values are immutable here, so `Clone` is the identity.
use astra_sync.Prelude.{
  ℕ, ℤ, Text, text_eq, text_lt, is_empty, Bool, true, false, not, ◌&&◌, ◌||◌, List, [], ◌∷◌, length,
  ltb, leb, all_of, is_positive, ◌==◌, if◌then◌else◌, sort_by, Result, ok, check, ◌>>◌,
}
use astra_sync.Job.Spec.{matches_dns_label}
use astra_sync.Job.Status.{Time}
use astra_sync.Job.Mutation.{matches_revision}
use astra_sync.Connection.Error.{
  Error, locator_invalid, secret_uid_invalid, field_count_invalid, fields_invalid,
  generation_identity_invalid, too_many_settings, settings_invalid,
}

abbrev pub maximum_settings : ℕ
maximum_settings = 256

abbrev pub maximum_setting_value : ℕ
maximum_setting_value = 65536

abbrev pub maximum_secret_mappings : ℕ
maximum_secret_mappings = 64

-- `[A-Za-z]`
abbrev is_letter : ℕ → Bool
is_letter c = (leb 97 c && leb c 122) || (leb 65 c && leb c 90)

-- `[A-Za-z0-9._-]`
abbrev is_option_char : ℕ → Bool
is_option_char c =
    is_letter c || ((leb 48 c && leb c 57) || ((c == 46) || ((c == 95) || (c == 45))))

-- `^[A-Za-z][A-Za-z0-9._-]{0,127}$`
unfoldable pub matches_option : Text → Bool
matches_option [] = false
matches_option (c ∷ s) = is_letter c && (all_of is_option_char s && leb (length s) 127)

-- `strings.ContainsAny(s, chars)`
unfoldable pub contains_any : (ℕ → Bool) → Text → Bool
contains_any chars [] = false
contains_any chars (c ∷ s) = chars c || contains_any chars s

-- "\r\n\x00"
abbrev pub is_line_end_or_nul : ℕ → Bool
is_line_end_or_nul c = (c == 13) || ((c == 10) || (c == 0))

pub data Sensitivity : Type 0 where
  public_setting restricted : Sensitivity
  other_sensitivity : Text → Sensitivity

pub data Provider : Type 0 where
  kubernetes_secret_v1 : Provider
  other_provider : Text → Provider

pub record Setting : Type 0 where
  pub setting_key : Text
  pub value : Text
  pub sensitivity : Sensitivity

pub record SecretField : Type 0 where
  pub logical_field : Text
  pub secret_key : Text

pub record Locator : Type 0 where
  pub provider : Provider
  pub secret_name : Text
  pub secret_uid : Text
  pub fields : List SecretField

pub record Generation : Type 0 where
  pub number : ℤ
  pub descriptor_revision : Text
  pub schema_revision : Text
  pub settings : List Setting
  pub locator : Locator
  pub generated_at : Time

unfoldable pub sensitivity_eq : Sensitivity → Sensitivity → Bool
sensitivity_eq public_setting public_setting = true
sensitivity_eq restricted restricted = true
sensitivity_eq (other_sensitivity a) (other_sensitivity b) = text_eq a b
sensitivity_eq _ _ = false

unfoldable pub provider_eq : Provider → Provider → Bool
provider_eq kubernetes_secret_v1 kubernetes_secret_v1 = true
provider_eq (other_provider a) (other_provider b) = text_eq a b
provider_eq _ _ = false

abbrev known_provider : Provider → Bool
known_provider kubernetes_secret_v1 = true
known_provider (other_provider s) = false

-- `Provider != ""`
abbrev pub has_provider : Provider → Bool
has_provider kubernetes_secret_v1 = true
has_provider (other_provider s) = not (is_empty s)

abbrev known_sensitivity : Sensitivity → Bool
known_sensitivity (other_sensitivity s) = false
known_sensitivity _ = true

-- `value <= previous`
abbrev pub not_after : Text → Text → Bool
not_after previous value = not (text_lt previous value)

-- The loop over the fields; `previous` is the logical field before.
unfoldable pub fields_valid : Text → List SecretField → Bool
fields_valid previous [] = true
fields_valid previous (f ∷ fs) =
    let rest = fields_valid f.logical_field fs in
    if not (matches_option f.logical_field)
      || (not_after previous f.logical_field
          || ((length f.secret_key == 0)
              || (ltb 253 (length f.secret_key) || contains_any is_line_end_or_nul f.secret_key)))
    then false
    else rest

unfoldable pub settings_valid : Text → List Setting → Bool
settings_valid previous [] = true
settings_valid previous (s ∷ ss) =
    let rest = settings_valid s.setting_key ss in
    if not (matches_option s.setting_key)
      || (not_after previous s.setting_key
          || (ltb maximum_setting_value (length s.value) || not (known_sensitivity s.sensitivity)))
    then false
    else rest

module _ (is_uuid : Text → Bool) where
  unfoldable pub validate_locator : Locator → Result Error (Unit {0})
  validate_locator l = do
    check
        (not (known_provider l.provider)
          || ((length l.secret_name == 0)
              || (ltb 63 (length l.secret_name) || not (matches_dns_label l.secret_name))))
        locator_invalid
    check (not (is_uuid l.secret_uid)) secret_uid_invalid
    check ((length l.fields == 0) || ltb maximum_secret_mappings (length l.fields))
        field_count_invalid
    check (not (fields_valid [] l.fields)) fields_invalid

  unfoldable pub validate_generation : Generation → Result Error (Unit {0})
  validate_generation g = do
    check
        (not (is_positive g.number)
          || (not (matches_revision g.descriptor_revision)
              || (not (matches_revision g.schema_revision) || (g.generated_at == 0))))
        generation_identity_invalid
    check (ltb maximum_settings (length g.settings)) too_many_settings
    check (not (settings_valid [] g.settings)) settings_invalid
    if has_provider g.locator.provider then validate_locator g.locator else ok tt

unfoldable pub setting_eq : Setting → Setting → Bool
setting_eq a b =
    text_eq a.setting_key b.setting_key
    && (text_eq a.value b.value && sensitivity_eq a.sensitivity b.sensitivity)

-- The loop of `equalSettings` over two slices of one length.
unfoldable pub all_equal {ℓ} : {A : Type ℓ} → (A → A → Bool) → List A → List A → Bool
all_equal eq (a ∷ left) (b ∷ right) = eq a b && all_equal eq left right
all_equal eq _ _ = true

unfoldable pub equal_settings : List Setting → List Setting → Bool
equal_settings left right = (length left == length right) && all_equal setting_eq left right

unfoldable pub field_eq : SecretField → SecretField → Bool
field_eq a b = text_eq a.logical_field b.logical_field && text_eq a.secret_key b.secret_key

unfoldable pub equal_locator : Locator → Locator → Bool
equal_locator left right =
    provider_eq left.provider right.provider
    && (text_eq left.secret_name right.secret_name
        && (text_eq left.secret_uid right.secret_uid
            && ((length left.fields == length right.fields)
                && all_equal field_eq left.fields right.fields)))

-- By key; settings with one key come in any order.
unfoldable pub sort_settings : List Setting → List Setting
sort_settings = sort_by (λ (a b : Setting). text_lt a.setting_key b.setting_key)
