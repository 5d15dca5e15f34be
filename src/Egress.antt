-- ===== src/Egress.antt =====
-- control-plane/scheduler/internal/connectiontest/egress.go: which addresses a connection test may
-- reach.
pub mod Address
pub mod Denied
pub mod Host
pub mod Guard
mod Tests
pub mod Laws
