-- ===== src/Auth/Error.antt =====
-- The errors of control-plane/auth, one constructor for each message.
use astra_sync.Prelude.{Text}

pub data Error : Type 0 where
  -- principal.go
  unauthenticated permission_denied tenant_unavailable policy_stale : Error
  tenant_not_canonical blank_permission nil_context principal_incomplete : Error
  membership_invalid : Error
  -- ErrPermissionDenied joined with the error of `CurrentPolicyRevision`.
  denied_with : Text → Error
  -- audit.go
  event_invalid event_tenant_invalid too_many_attributes : Error
  query_tenant_invalid query_window_invalid query_limit_invalid event_types_invalid : Error
  outcomes_invalid cursor_invalid : Error
  -- session.go and authentication.go
  tokens_invalid login_invalid not_configured : Error
  unresolved : Text → Error
