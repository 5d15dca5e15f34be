-- ===== src/Auth.antt =====
-- Authentication and authorization, control-plane/auth.
pub mod Error
pub mod Permissions
pub mod Principal
pub mod Authorizer
pub mod Audit
pub mod Session
pub mod Laws
mod Tests
