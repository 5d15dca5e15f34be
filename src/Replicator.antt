-- ===== src/Replicator.antt =====
-- The replicator of the package control-plane/replication/runtime: it sends the log's entries to
-- another region, one after another, and acknowledges each.
pub mod Send
pub mod Loop
pub mod Laws
mod Tests
