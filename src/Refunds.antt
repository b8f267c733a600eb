-- ===== src/Refunds.antt =====
-- Refunds: server/src/modules/refunds.
pub mod Store
pub mod Request
pub mod Settle
pub mod Process
pub mod Reconcile
pub mod InFlight
pub mod Settled
pub mod Marked
pub mod Settlement
pub mod Asked
