-- ===== src/Schema.antt =====
-- The database that the services share (server/src/database/schema): one record of tables.
pub mod Enums
pub mod Rows
use gramoz.Common.{ℕ, List}
use Rows.{
  Order, OrderItem, Product, ProductVariant, Promo, LoyaltyPoint, Payment, InventoryTransaction,
  CartItem, IdempotencyKey, Address, Zone, User, OutboxPayload, Refund,
}

-- `outbox` lists the events written to the outbox table, which the worker reads.
pub record Db : Type 0 where
  pub orders : List Order
  pub order_items : List OrderItem
  pub products : List Product
  pub variants : List ProductVariant
  pub promos : List Promo
  pub loyalty : List LoyaltyPoint
  pub payments : List Payment
  pub refunds : List Refund
  pub inventory : List InventoryTransaction
  pub outbox : List OutboxPayload
  pub cart_items : List CartItem
  pub idempotency : List IdempotencyKey
  pub addresses : List Address
  pub zones : List Zone
  pub users : List User
