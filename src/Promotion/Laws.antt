-- ===== src/Promotion/Laws.antt =====
-- What holds of a promotion.
pub mod Transitions
pub mod Outcomes
pub mod Tracking
pub mod Blocking
