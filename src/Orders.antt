-- ===== src/Orders.antt =====
-- Orders: server/src/modules/orders. `Transitions` is the state machine, `Store` the statements of
-- orders.store.ts, `Cancel`, `Status` and `Checkout` the handlers of orders.service.ts, and
-- `Expiry` the worker of orders-expiry.processor.ts.
pub mod Transitions
pub mod Store
pub mod Cancel
pub mod Status
pub mod Expiry
pub mod Checkout
pub mod Stock
pub mod Release
pub mod Goods
pub mod Restock
pub mod Lifecycle
pub mod Updates
pub mod Walk
pub mod Stale
pub mod Spared
pub mod Points
