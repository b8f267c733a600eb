-- ===== src/Orders/Store.antt =====
-- The statements of server/src/modules/orders/orders.store.ts.
use gramoz.Common.{ℕ, ◌+◌, ◌-◌, Bool, ◌&&◌, Option, none, some, List, ◌∷◌, leb, ◌==◌}
use gramoz.Common.Int.{neg_part, pos_part}
use gramoz.Table.{find, select, update, exists, sum_ℤ}
use gramoz.Schema.{Db}
use gramoz.Schema.Enums.{
  OrderStatus, PaymentStatus, spent_checkout, point_type_eq, payment_is_pending,
}
use gramoz.Schema.Rows.{
  Order, OrderItem, Product, ProductVariant, InventoryTransaction, User, OutboxPayload,
}
use gramoz.Tx.{Tx, pure, read, write, ◌>>=◌, ◌>>◌}
use gramoz.Loyalty.{refers_to}
use gramoz.Orders.Transitions.{cancellable}

abbrev pub order_id_is : ℕ → Order → Bool
order_id_is id o = o.id == id

abbrev pub product_id_is : ℕ → Product → Bool
product_id_is id p = p.id == id

abbrev pub variant_id_is : ℕ → ProductVariant → Bool
variant_id_is id v = v.id == id

-- `findOrderById` and `findOrderByIdForUpdate`
abbrev pub find_order_by_id : ℕ → Db → Option Order
find_order_by_id id db = find (order_id_is id) db.orders

unfoldable pub update_order_status : ℕ → OrderStatus → Tx (Option Order)
update_order_status id status = do
  write (λ db. record db {
    orders = update (order_id_is id) (λ o. record o { status = status }) db.orders;
  })
  read (find_order_by_id id)

-- `transitionOrderStatusForCancellation`: the row as it is after the update, if there was one
abbrev pub is_cancellable : ℕ → Order → Bool
is_cancellable id o = order_id_is id o && cancellable o.status

abbrev pub cancelled_row : Order → Order
cancelled_row o = record o { status = OrderStatus.cancelled }

unfoldable pub transition_for_cancellation : ℕ → Tx (Option Order)
transition_for_cancellation id = do
  row ← read (λ db. find (is_cancellable id) db.orders)
  write (λ db. record db { orders = update (is_cancellable id) cancelled_row db.orders })
  pure (elim row [ none ↦ none | some o ↦ some (cancelled_row o) ])

unfoldable pub get_order_items_for_restock : ℕ → Db → List OrderItem
get_order_items_for_restock id db = select (λ i. i.order_id == id) db.order_items

unfoldable pub restore_product_stock : ℕ → ℕ → Db → Db
restore_product_stock id n db = record db {
  products = update (product_id_is id) (λ p. record p { stock = p.stock + n }) db.products;
}

unfoldable pub restore_variant_stock : ℕ → ℕ → Db → Db
restore_variant_stock id n db = record db {
  variants = update (variant_id_is id) (λ v. record v { stock = v.stock + n }) db.variants;
}

abbrev product_covers : ℕ → ℕ → Product → Bool
product_covers id n p = product_id_is id p && leb n p.stock

abbrev variant_covers : ℕ → ℕ → ProductVariant → Bool
variant_covers id n v = variant_id_is id v && leb n v.stock

-- The stock falls only where it covers the quantity; true if a row was updated.
unfoldable pub deduct_product_stock : ℕ → ℕ → Tx Bool
deduct_product_stock id n = do
  updated ← read (λ db. exists (product_covers id n) db.products)
  write (λ db. record db {
    products = update (product_covers id n) (λ p. record p { stock = p.stock - n }) db.products;
  })
  pure updated

unfoldable pub deduct_variant_stock : ℕ → ℕ → Tx Bool
deduct_variant_stock id n = do
  updated ← read (λ db. exists (variant_covers id n) db.variants)
  write (λ db. record db {
    variants = update (variant_covers id n) (λ v. record v { stock = v.stock - n }) db.variants;
  })
  pure updated

unfoldable pub create_inventory_transaction : InventoryTransaction → Db → Db
create_inventory_transaction row db = record db { inventory = row ∷ db.inventory }

-- Math.abs(SUM(points)) of the rows that the checkout wrote
unfoldable pub get_points_spent_on_order : ℕ → Db → ℕ
get_points_spent_on_order id db =
    let total =
      sum_ℤ (λ p. p.points)
        (select (λ p. refers_to id p && point_type_eq p.point_type spent_checkout) db.loyalty) in
    pos_part total + neg_part total

unfoldable pub fail_pending_payments_for_order : ℕ → ℕ → Db → Db
fail_pending_payments_for_order id now db = record db {
  payments =
      update (λ p. p.order_id == id && payment_is_pending p.status)
        (λ p. record p { status = PaymentStatus.failed; updated_at = now }) db.payments;
}

unfoldable pub get_user_basic_info : ℕ → Db → Option User
get_user_basic_info id db = find (λ u. u.id == id) db.users

unfoldable pub create_outbox_event : OutboxPayload → Db → Db
create_outbox_event e db = record db { outbox = e ∷ db.outbox }
