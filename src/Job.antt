-- ===== src/Job.antt =====
-- The package control-plane/job and its in-memory repository control-plane/job/memory.
pub mod Error
pub mod Spec
pub mod Status
pub mod Model
pub mod Lifecycle
pub mod Memory
pub mod Mutation
pub mod Laws
mod Samples
mod Tests
