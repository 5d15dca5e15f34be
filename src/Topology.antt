-- ===== src/Topology.antt =====
-- The region topology, control-plane/replication/topology.
pub mod Config
pub mod Loader
pub mod Laws
mod Tests
