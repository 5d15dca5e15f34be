-- ===== src/Job/Laws.antt =====
-- What holds of the job record and its lifecycle.
pub mod Validity
pub mod Transitions
pub mod Reports
pub mod Runs
pub mod Records
pub mod Store
pub mod Pages
pub mod Mutations
pub mod History
