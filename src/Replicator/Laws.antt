-- ===== src/Replicator/Laws.antt =====
-- What holds of a replicator.
pub mod Progress
pub mod Gaps
