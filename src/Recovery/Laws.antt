-- ===== src/Recovery/Laws.antt =====
-- What holds of a recovery.
pub mod Files
pub mod Outcomes
pub mod Calls
pub mod Completion
