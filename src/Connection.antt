-- ===== src/Connection.antt =====
-- The package control-plane/connection and its in-memory repository control-plane/connection/memory.
pub mod Error
pub mod Settings
pub mod Model
pub mod Policy
pub mod Operation
pub mod Mutation
pub mod Store
pub mod Limits
pub mod Apply
pub mod Expiry
pub mod Claims
pub mod Calls
mod Samples
mod Tests
pub mod Laws
