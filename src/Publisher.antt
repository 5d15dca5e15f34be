-- ===== src/Publisher.antt =====
-- The package control-plane/replication/checkpoint: a completed checkpoint goes to the log, if its
-- epoch is still the one that may write.
pub mod Publish
pub mod Laws
mod Tests
