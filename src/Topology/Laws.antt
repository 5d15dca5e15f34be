-- ===== src/Topology/Laws.antt =====
-- Proofs about the region topology.
pub mod Regions
pub mod Serving
