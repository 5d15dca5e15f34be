-- ===== src/Promotion.antt =====
-- The package control-plane/replication/promotion: an operator moves a job to a standby region.
pub mod Record
pub mod Manager
pub mod Laws
mod Tests
