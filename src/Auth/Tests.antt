-- ===== src/Auth/Tests.antt =====
-- Tests and instances of the theorems about authorization.
use astra_sync.Prelude.{
  Text, text_lt, text_eq, codes, zero, suc, Bool, true, false, Option, none, some, List, [], ◌∷◌,
  Result, ok, err, ◌≡◌, ◌↔◌, refl, text_key, at, set_at, IsSorted, is_blank, sort_by, insert_by,
}
use astra_sync.Connection.Policy.{contains}
use astra_sync.Auth.Error.{permission_denied}
use astra_sync.Auth.Permissions.{
  platform_admin, tenant_viewer, tenant_operator, jobs_read, jobs_stop, tenants_create,
  platform_roles, diagnostics_read, permissions_for_role,
}
use astra_sync.Auth.Principal.{
  Principal, Membership, matches_tenant_id, matches_each, memberships_valid, with_principal, has,
  principal_from_context,
}
use astra_sync.Auth.Authorizer.{Decision, authorize, check_revision, revision_of}
use astra_sync.Auth.Audit.{matches_event_type, words}
use astra_sync.Auth.Laws.Roles.{is_platform, permissions_for_role-below}
use astra_sync.Auth.Laws.Decisions.{Allowed, authorize_iff}

abbrev sales : Text
sales = codes "0b5e8e6c-1f0a-4d55-9a43-6f1f6a3f8a01"

abbrev sales_member : Membership
sales_member = record {
  member_of = sales;
  tenant_namespace = codes "sales";
  tenant_display_name = codes "Sales";
  role = tenant_operator;
  membership_active = true;
  membership_revision = [];
  permissions = (jobs_read, tt) ∷ (jobs_stop, tt) ∷ [];
}

abbrev ada : Principal
ada = record {
  principal_id = codes "ada";
  issuer = codes "https://id.example";
  subject = codes "ada";
  principal_active = true;
  service = false;
  is_platform_admin = false;
  policy_revision = codes "7";
  memberships = (sales, sales_member) ∷ [];
}

abbrev revision_seven : Option (Text → Result Text Text)
revision_seven = some (λ tenant. ok (codes "7"))

abbrev stop_decision : Decision
stop_decision = record {
  decided_principal = ada;
  decided_membership = sales_member;
  decided_tenant = sales;
  decided_permission = jobs_stop;
  decided_revision = codes "7";
}

ada-stored : with_principal (some none) ada ≡ ok (some (some ada))
unfolding with_principal memberships_valid matches_tenant_id matches_each text_eq is_blank
    astra_sync.Prelude.space_width
ada-stored = refl

ada-stops : authorize revision_seven (some (some ada)) sales jobs_stop ≡ ok stop_decision
unfolding authorize principal_from_context has check_revision revision_of at text_eq
ada-stops = refl

create_refused :
    authorize revision_seven (some (some ada)) sales (codes "jobs.create") ≡ err permission_denied
unfolding authorize principal_from_context has check_revision revision_of at text_eq
create_refused = refl

event_types-read :
    (matches_event_type (codes "job.start_2") ≡ true)
    × (matches_event_type (codes "job..start") ≡ false)
unfolding matches_event_type words
event_types-read = (refl, refl)

authorize_iff_example :
    (authorize revision_seven (some (some ada)) sales jobs_stop ≡ ok stop_decision)
    ↔ Allowed revision_seven ada sales jobs_stop stop_decision
authorize_iff_example =
    authorize_iff (some none) (some (some ada)) revision_seven ada sales jobs_stop stop_decision
      ada-stored

permissions_for_role-below_example :
    IsSorted text_lt (permissions_for_role tenant_viewer)
    × (contains jobs_read (permissions_for_role tenant_viewer) ≡ true
        → contains jobs_read (permissions_for_role tenant_operator) ≡ true)
    × (is_platform tenant_viewer ≡ false
        → (contains tenants_create (permissions_for_role tenant_viewer) ≡ false)
          × (contains platform_roles (permissions_for_role tenant_viewer) ≡ false)
          × (contains diagnostics_read (permissions_for_role tenant_viewer) ≡ false))
    × (contains tenants_create (permissions_for_role platform_admin) ≡ true)
    × (contains platform_roles (permissions_for_role platform_admin) ≡ true)
    × (contains diagnostics_read (permissions_for_role platform_admin) ≡ true)
permissions_for_role-below_example =
    permissions_for_role-below tenant_viewer tenant_operator jobs_read refl
