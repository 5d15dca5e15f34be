-- ===== src/Recovery.antt =====
-- The package control-plane/replication/recovery: a job's state is restored from its last replicated
-- checkpoint.
pub mod Record
pub mod Manager
pub mod Laws
mod Tests
