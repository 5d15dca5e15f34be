-- ===== src/Wal.antt =====
-- The package control-plane/replication/wal: the write-ahead log of checkpoints that the primary
-- region appends to object storage and the secondary regions read back.
pub mod Bytes
pub mod Crc
pub mod Entry
pub mod Keys
pub mod Storage
pub mod Writer
pub mod Reader
pub mod Laws
mod Tests
