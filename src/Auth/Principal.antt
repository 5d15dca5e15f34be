-- ===== src/Auth/Principal.antt =====
-- control-plane/auth/principal.go. A context is what it holds under the key of the package: `none` is
-- a nil context, `some none` one without a principal. Values are immutable here, so copies are not
-- written out.
use astra_sync.Prelude.{
  ℕ, zero, suc, Text, text_eq, text_lt, is_blank, is_hex, Bool, true, false, not, ◌&&◌, ◌||◌,
  Option, none, some, is_set, List, [], ◌∷◌, leb, ◌==◌, if◌then◌else◌, Result, ok, err, check, ◌>>◌,
  Map, text_key, at, set_at, sort_by,
}
use astra_sync.Auth.Error.{
  Error, tenant_not_canonical, blank_permission, nil_context, principal_incomplete,
  membership_invalid,
}
use astra_sync.Auth.Permissions.{Permission, Role, other_role}

-- A text with one character of each class, in their order.
unfoldable pub matches_each : List (ℕ → Bool) → Text → Bool
matches_each [] [] = true
matches_each (p ∷ ps) (c ∷ s) = p c && matches_each ps s
matches_each _ _ = false

abbrev pub times : ℕ → (ℕ → Bool) → List (ℕ → Bool) → List (ℕ → Bool)
times zero p ps = ps
times (suc n) p ps = p ∷ times n p ps

abbrev dash : ℕ → Bool
dash c = c == 45

-- `^[0-9a-f]{8}-[0-9a-f]{4}-[1-5][0-9a-f]{3}-[89ab][0-9a-f]{3}-[0-9a-f]{12}$`
unfoldable pub matches_tenant_id : Text → Bool
matches_tenant_id = matches_each (
    times 8 is_hex (
      dash
      ∷ times 4 is_hex (
          dash
          ∷ (λ c. leb 49 c && leb c 53)
          ∷ times 3 is_hex (
              dash
              ∷ (λ c. (leb 56 c && leb c 57) || (leb 97 c && leb c 98))
              ∷ times 3 is_hex (dash ∷ times 12 is_hex [])))))

pub record Membership : Type 0 where
  pub member_of : Text
  pub tenant_namespace : Text
  pub tenant_display_name : Text
  pub role : Role
  pub membership_active : Bool
  pub membership_revision : Text
  pub permissions : Map Permission (Unit {0})

pub record Principal : Type 0 where
  pub principal_id : Text
  pub issuer : Text
  pub subject : Text
  pub principal_active : Bool
  pub service : Bool
  pub is_platform_admin : Bool
  pub policy_revision : Text
  pub memberships : Map Text Membership

abbrev pub Context : Type 0
Context = Option (Option Principal)

-- The loop of `NewMembership`.
unfoldable pub allow_all :
    List Permission → Map Permission (Unit {0}) → Result Error (Map Permission (Unit {0}))
allow_all [] allowed = ok allowed
allow_all (p ∷ ps) allowed =
    let rest = allow_all ps (set_at p tt allowed) in
    if is_blank p then err blank_permission else rest

abbrev member_with :
    Text → Bool → Result Error (Map Permission (Unit {0})) → Result Error Membership
member_with tenant active (err e) = err e
member_with tenant active (ok allowed) = ok (record {
  member_of = tenant;
  tenant_namespace = [];
  tenant_display_name = [];
  role = other_role [];
  membership_active = active;
  membership_revision = [];
  permissions = allowed;
})

unfoldable pub new_membership : Text → Bool → List Permission → Result Error Membership
new_membership tenant active ps =
    check (not (matches_tenant_id tenant)) tenant_not_canonical
    >> member_with tenant active (allow_all ps [])

unfoldable pub has : Membership → Permission → Bool
has m p = is_set (at p m.permissions)

abbrev keys {ℓ} : {V : Type ℓ} → Map Text V → List Text
keys [] = []
keys ((k, v) ∷ m) = k ∷ keys m

unfoldable pub permission_list : Membership → List Permission
permission_list m = sort_by text_lt (keys m.permissions)

-- Every membership stands under its own tenant, which is a canonical UUID.
unfoldable pub memberships_valid : Map Text Membership → Bool
memberships_valid [] = true
memberships_valid ((tenant, m) ∷ ms) =
    let rest = memberships_valid ms in
    if not (text_eq tenant m.member_of) || not (matches_tenant_id tenant) then false else rest

unfoldable pub with_principal : Context → Principal → Result Error Context
with_principal ctx p = do
  check (not (is_set ctx)) nil_context
  check (is_blank p.subject || is_blank p.policy_revision) principal_incomplete
  check (not (memberships_valid p.memberships)) membership_invalid
  ok (some (some p))

unfoldable pub in_scope : Text → Map Text Membership → Option Membership
in_scope scope [] = none
in_scope scope ((tenant, m) ∷ ms) =
    if text_eq m.tenant_namespace scope then some m else in_scope scope ms

unfoldable pub membership_for_scope : Principal → Text → Option Membership
membership_for_scope p scope = elim (at scope p.memberships) [
  | some m ↦ some m
  | none ↦ in_scope scope p.memberships
]

unfoldable pub principal_from_context : Context → Option Principal
principal_from_context none = none
principal_from_context (some stored) = stored
