-- ===== src/Egress/Laws.antt =====
-- What the egress guard lets through.
pub mod Permitted
pub mod Pinned
