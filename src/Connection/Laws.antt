-- ===== src/Connection/Laws.antt =====
-- Proofs about the package connection, by what they are about.
pub mod Counts
pub mod Quotas
pub mod Limits
pub mod Admission
pub mod ClaimCases
pub mod Accepted
pub mod Stored
pub mod Consistency
pub mod Edits
pub mod Commits
pub mod Completions
pub mod Prefixes
pub mod Policies
pub mod Frame
pub mod Replays
pub mod Bounds
