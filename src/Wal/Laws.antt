-- ===== src/Wal/Laws.antt =====
-- What holds of the write-ahead log.
pub mod Codec
pub mod Reads
pub mod Canonical
pub mod Faults
pub mod Names
pub mod Log
pub mod Writing
pub mod Reading
pub mod Sessions
pub mod Batches
