-- ===== src/Auth/Laws/Roles.antt =====
-- What the roles have in common.
use astra_sync.Prelude.{
  text_eq, text_lt, text_lt_asym, Bool, true, false, ◌≡◌, ◌∙◌, arith, IsSorted, sort_by-IsSorted,
}
use astra_sync.Auth.Permissions.{
  Permission, Role, tenant_viewer, tenant_operator, tenant_auditor, tenant_admin, platform_admin,
  other_role, tenants_create, platform_roles, diagnostics_read, connection_permissions,
  tenant_permissions, granted, permissions_for_role,
}
use astra_sync.Connection.Policy.{contains}
use astra_sync.Connection.Laws.Prefixes.{contains-sort}

-- The role `q` may do what `r` may.
abbrev pub is_below : Role → Role → Bool
is_below (other_role s) q = true
is_below tenant_viewer tenant_viewer = true
is_below tenant_viewer tenant_operator = true
is_below tenant_viewer tenant_auditor = true
is_below tenant_operator tenant_operator = true
is_below tenant_auditor tenant_auditor = true
is_below r platform_admin = true
is_below platform_admin q = false
is_below r tenant_admin = true
is_below r q = false

abbrev pub is_platform : Role → Bool
is_platform platform_admin = true
is_platform _ = false

granted-below :
    (r q : Role) (p : Permission)
    → is_below r q ≡ true
    → contains p (granted r) ≡ true
    → contains p (granted q) ≡ true
unfolding granted contains tenant_permissions connection_permissions
granted-below r q p below h = ground arith

granted-platform :
    (r : Role)
    → is_platform r ≡ false
    → (contains tenants_create (granted r) ≡ false)
      × (contains platform_roles (granted r) ≡ false)
      × (contains diagnostics_read (granted r) ≡ false)
unfolding granted contains tenant_permissions connection_permissions text_eq
granted-platform r h = ground arith

platform_grants :
    (contains tenants_create (granted platform_admin) ≡ true)
    × (contains platform_roles (granted platform_admin) ≡ true)
    × (contains diagnostics_read (granted platform_admin) ≡ true)
unfolding granted contains tenant_permissions connection_permissions text_eq
platform_grants = ground arith

-- The permissions of a role are sorted. A role may do what the roles below it may: every role what a
-- viewer may, the administrators of a tenant what its operators and auditors may, and the platform
-- administrator all of it; the latter, and no other, may create tenants, manage platform roles and read
-- diagnostics.
pub permissions_for_role-below :
    (r q : Role) (p : Permission)
    → is_below r q ≡ true
    → IsSorted text_lt (permissions_for_role r)
      × (contains p (permissions_for_role r) ≡ true → contains p (permissions_for_role q) ≡ true)
      × (is_platform r ≡ false
          → (contains tenants_create (permissions_for_role r) ≡ false)
            × (contains platform_roles (permissions_for_role r) ≡ false)
            × (contains diagnostics_read (permissions_for_role r) ≡ false))
      × (contains tenants_create (permissions_for_role platform_admin) ≡ true)
      × (contains platform_roles (permissions_for_role platform_admin) ≡ true)
      × (contains diagnostics_read (permissions_for_role platform_admin) ≡ true)
unfolding permissions_for_role
permissions_for_role-below r q p below = (
  sort_by-IsSorted text_lt text_lt_asym (granted r),
  λ h.
      contains-sort p (granted q)
      ∙ granted-below r q p below (ground (arith, contains-sort p (granted r))),
  λ h.
      let (a, b, c) = granted-platform r h in
      (
        contains-sort tenants_create (granted r) ∙ a,
        contains-sort platform_roles (granted r) ∙ b,
        contains-sort diagnostics_read (granted r) ∙ c,
      ),
  contains-sort tenants_create (granted platform_admin) ∙ platform_grants.0,
  contains-sort platform_roles (granted platform_admin) ∙ platform_grants.1,
  contains-sort diagnostics_read (granted platform_admin) ∙ platform_grants.2,
)
