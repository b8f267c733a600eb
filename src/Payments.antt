-- ===== src/Payments.antt =====
-- Payments: server/src/modules/payments.
pub mod Text
pub mod Store
pub mod Signature
pub mod Cod
pub mod Initiate
pub mod Verify
pub mod Callbacks
pub mod Gateway
pub mod Writes
pub mod Sound
pub mod Kept
pub mod Opening
pub mod Initiating
pub mod Answering
pub mod Returning
pub mod Sessions
pub mod Settling
pub mod Settled
pub mod Trust
