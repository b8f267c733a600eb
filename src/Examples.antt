-- ===== src/Examples.antt =====
-- Example data: a small shop, its requests, and what the operations make of them. The children run
-- the theorems on it.
pub mod Shop
pub mod Checkout
pub mod Cancelling
pub mod Ledgers
pub mod Events
pub mod Carts
pub mod Homes
pub mod Paying
pub mod Refunding
