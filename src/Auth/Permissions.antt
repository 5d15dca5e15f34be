-- ===== src/Auth/Permissions.antt =====
-- control-plane/auth/permissions.go. A permission is a text, as in the source.
use astra_sync.Prelude.{Text, text_lt, codes, List, [], ◌∷◌, ◌++◌, sort_by}

abbrev pub Permission : Type 0
Permission = Text

pub data Role : Type 0 where
  tenant_viewer tenant_operator tenant_auditor tenant_admin platform_admin : Role
  other_role : Text → Role

abbrev pub jobs_read : Permission
jobs_read = codes "jobs.read"

abbrev pub jobs_create : Permission
jobs_create = codes "jobs.create"

abbrev pub jobs_update : Permission
jobs_update = codes "jobs.update"

abbrev pub jobs_start : Permission
jobs_start = codes "jobs.start"

abbrev pub jobs_stop : Permission
jobs_stop = codes "jobs.stop"

abbrev pub jobs_delete : Permission
jobs_delete = codes "jobs.delete"

abbrev pub members_read : Permission
members_read = codes "members.read"

abbrev pub members_manage : Permission
members_manage = codes "members.manage"

abbrev pub audit_read : Permission
audit_read = codes "audit.read"

abbrev pub tenants_create : Permission
tenants_create = codes "tenants.create"

abbrev pub platform_roles : Permission
platform_roles = codes "platform.roles.manage"

abbrev pub diagnostics_read : Permission
diagnostics_read = codes "diagnostics.read"

abbrev pub connectors_read : Permission
connectors_read = codes "connectors.read"

abbrev pub connections_read : Permission
connections_read = codes "connections.read"

abbrev pub connections_use : Permission
connections_use = codes "connections.use"

abbrev pub connections_test : Permission
connections_test = codes "connections.test"

unfoldable pub connection_permissions : List Permission
connection_permissions =
    connectors_read
    ∷ connections_read
    ∷ codes "connections.create"
    ∷ codes "connections.update"
    ∷ connections_use
    ∷ connections_test
    ∷ codes "connections.rotate"
    ∷ codes "connections.disable"
    ∷ codes "connections.delete"
    ∷ []

unfoldable pub tenant_permissions : List Permission
unfolding connection_permissions
tenant_permissions =
    (jobs_read ∷ jobs_create ∷ jobs_update ∷ jobs_start ∷ jobs_stop ∷ jobs_delete ∷ members_read
      ∷ members_manage ∷ audit_read ∷ [])
    ++ connection_permissions

-- The list of a role before it is sorted.
unfoldable pub granted : Role → List Permission
unfolding tenant_permissions
granted tenant_viewer = jobs_read ∷ connectors_read ∷ []
granted tenant_operator =
    jobs_read ∷ jobs_create ∷ jobs_update ∷ jobs_start ∷ jobs_stop ∷ connectors_read
    ∷ connections_read ∷ connections_use ∷ connections_test ∷ []
granted tenant_auditor = jobs_read ∷ members_read ∷ audit_read ∷ connectors_read ∷ []
granted tenant_admin = tenant_permissions
granted platform_admin =
    tenant_permissions ++ tenants_create ∷ platform_roles ∷ diagnostics_read ∷ []
granted (other_role s) = []

unfoldable pub permissions_for_role : Role → List Permission
permissions_for_role r = sort_by text_lt (granted r)

unfoldable pub all_tenant_permissions : List Permission
all_tenant_permissions = sort_by text_lt tenant_permissions

unfoldable pub all_connection_permissions : List Permission
all_connection_permissions = sort_by text_lt connection_permissions
