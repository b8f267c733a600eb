-- ===== src/Orders/Goods.antt =====
-- Steps of a handler that leave the stock, the orders, their items and the idempotency keys alone.
use gramoz.Common.{◌≡◌, arith}
use gramoz.Schema.{Db}

pub record SameGoods (a b : Db) : Type 0 where
  pub products : b.products ≡ a.products
  pub variants : b.variants ≡ a.variants
  pub orders : b.orders ≡ a.orders
  pub items : b.order_items ≡ a.order_items
  pub idempotency : b.idempotency ≡ a.idempotency

pub SameGoods-refl : (a : Db) → SameGoods a a
SameGoods-refl a = ground arith

pub SameGoods-trans : {a b c : Db} → SameGoods a b → SameGoods b c → SameGoods a c
SameGoods-trans p q = ground arith
