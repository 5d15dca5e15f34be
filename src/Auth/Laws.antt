-- ===== src/Auth/Laws.antt =====
-- Proofs about authorization.
pub mod Roles
pub mod Decisions
