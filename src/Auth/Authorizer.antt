-- ===== src/Auth/Authorizer.antt =====
-- control-plane/auth/authorizer.go. `CurrentPolicyRevision` is an argument: `none` is the nil function.
use astra_sync.Prelude.{
  Text, text_eq, is_empty, codes, true, false, not, ◌||◌, Option, none, some, [], ◌∷◌,
  if◌then◌else◌, Result, ok, err, check, ◌>>◌, ◌>>=◌, text_key, at,
}
use astra_sync.Auth.Error.{
  Error, unauthenticated, permission_denied, tenant_unavailable, policy_stale, blank_permission,
  denied_with,
}
use astra_sync.Auth.Permissions.{Permission}
use astra_sync.Auth.Principal.{
  Principal, Membership, Context, matches_tenant_id, new_membership, has, principal_from_context,
}

pub record Decision : Type 0 where
  pub decided_principal : Principal
  pub decided_membership : Membership
  pub decided_tenant : Text
  pub decided_permission : Permission
  pub decided_revision : Text

unfoldable pub revision_of : Principal → Membership → Text
revision_of p m =
    if not (is_empty m.membership_revision) then m.membership_revision else p.policy_revision

abbrev pub active_principal : Option Principal → Result Error Principal
active_principal none = err unauthenticated
active_principal (some p) = check (not p.principal_active) unauthenticated >> ok p

abbrev pub active_member : Option Membership → Result Error Membership
active_member none = err tenant_unavailable
active_member (some m) = check (not m.membership_active) tenant_unavailable >> ok m

unfoldable pub check_revision :
    Option (Text → Result Text Text) → Text → Text → Result Error (Unit {0})
check_revision none tenant expected = ok tt
check_revision (some current) tenant expected = elim (current tenant) [
  | err e ↦ err (denied_with e)
  | ok revision ↦ check (is_empty revision || not (text_eq revision expected)) policy_stale
]

unfoldable pub authorize :
    Option (Text → Result Text Text) → Context → Text → Permission → Result Error Decision
authorize current ctx tenant p = do
  who ← active_principal (principal_from_context ctx)
  m ← active_member (at tenant who.memberships)
  check (not (has m p)) permission_denied
  check_revision current tenant (revision_of who m)
  ok (record {
    decided_principal = who;
    decided_membership = m;
    decided_tenant = tenant;
    decided_permission = p;
    decided_revision = revision_of who m;
  })

abbrev developer : Principal
developer = record {
  principal_id = codes "development";
  issuer = [];
  subject = codes "development";
  principal_active = true;
  service = false;
  is_platform_admin = false;
  policy_revision = codes "development";
  memberships = [];
}

-- `DevelopmentAuthorizer`: a blank permission that is not empty leaves the membership out.
unfoldable pub authorize_development : Text → Permission → Result Error Decision
authorize_development tenant p =
    let none_at_all : Membership = record {
      member_of = [];
      tenant_namespace = [];
      tenant_display_name = [];
      role = astra_sync.Auth.Permissions.other_role [];
      membership_active = false;
      membership_revision = [];
      permissions = [];
    } in
    do
      check (not (matches_tenant_id tenant)) tenant_unavailable
      check (is_empty p) blank_permission
      ok (record {
        decided_principal = developer;
        decided_membership = elim (new_membership tenant true (p ∷ [])) [
          | ok m ↦ m
          | err e ↦ none_at_all
        ];
        decided_tenant = tenant;
        decided_permission = p;
        decided_revision = codes "development";
      })
