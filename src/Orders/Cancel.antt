-- ===== src/Orders/Cancel.antt =====
-- Cancellation: `cancelOrder`, `expireOrder` and `cancelOrderInternal` of
-- server/src/modules/orders/orders.service.ts.
use gramoz.Common.{
  ℕ, Bool, true, false, not, ◌&&◌, Option, none, some, ltb, ◌==◌, if◌then◌else◌, str_eq,
}
use gramoz.Schema.{Db}
use gramoz.Schema.Enums.{OrderStatus, OrderPaymentStatus, inward, order_status_eq, order_payment_eq}
use gramoz.Schema.Rows.{Order, OrderItem, cancelled, send_sms, refund_required}
use gramoz.Tx.{
  Tx, Result, pure, read, write, ◌>>=◌, ◌>>◌, throw_if, or_throw, when, for_each, run_transaction,
  ok, err, entity_not_found, forbidden_operation, invalid_operation, order_not_found, not_own_order,
  already_cancelled, not_cancellable, changed_concurrently, only_pending_expires, already_paid,
}
use gramoz.Loyalty.{has_points_been_refunded, refund_points}
use gramoz.Promos.{decrement_usage}
use gramoz.Orders.Transitions.{cancellable}
use gramoz.Orders.Store.{
  find_order_by_id, transition_for_cancellation, get_order_items_for_restock, restore_product_stock,
  restore_variant_stock, create_inventory_transaction, get_points_spent_on_order,
  fail_pending_payments_for_order, get_user_basic_info, create_outbox_event,
}

abbrev pub is_cancelled : Order → Bool
is_cancelled o = order_status_eq o.status OrderStatus.cancelled

abbrev pub is_paid : Order → Bool
is_paid o = order_payment_eq o.payment_status OrderPaymentStatus.paid

-- The checks on the locked row.
unfoldable pub check_cancellable : Bool → Order → Tx (Unit {0})
check_cancellable is_expiry o = do
  throw_if (is_cancelled o) (invalid_operation already_cancelled)
  throw_if (is_expiry && not (order_status_eq o.status OrderStatus.pending))
      (invalid_operation only_pending_expires)
  throw_if (is_expiry && is_paid o) (invalid_operation already_paid)
  throw_if (not (cancellable o.status)) (invalid_operation not_cancellable)

-- The variant's stock if the item has one, else the product's.
unfoldable pub restore_stock : Option ℕ → (product_id quantity : ℕ) → Db → Db
restore_stock none product_id quantity db = restore_product_stock product_id quantity db
restore_stock (some v) product_id quantity db = restore_variant_stock v quantity db

-- One round of the loop that puts the items back and records it.
unfoldable pub restock_item : ℕ → OrderItem → Db → Db
unfolding restore_stock
restock_item order_id item db =
    create_inventory_transaction
      (record {
        product_id = item.product_id;
        transaction_type = inward;
        quantity = item.quantity;
        reference_id = some order_id;
      })
      (restore_stock item.variant_id item.product_id item.quantity db)

unfoldable pub release_promo : Option ℕ → Db → Db
release_promo none db = db
release_promo (some id) db = decrement_usage id db

-- The points spent on the order come back, unless they already did.
unfoldable pub return_points : ℕ → Order → Tx (Unit {0})
return_points order_id order = do
  spent ← read (get_points_spent_on_order order_id)
  refunded ← read (has_points_been_refunded order_id)
  when (ltb 0 spent && not refunded)
      (refund_points order.user_id spent (some order_id) >>= λ _. pure tt)

-- An empty phone number is as good as none.
unfoldable pub notify_cancelled : Order → Db → Db
notify_cancelled order db = elim (get_user_basic_info order.user_id db) [
  | none ↦ db
  | some u ↦ elim u.phone [
    | none ↦ db
    | some phone ↦
        if str_eq phone "" then db else create_outbox_event (send_sms cancelled phone order.id) db
  ]
]

unfoldable pub require_refund : Order → Db → Db
require_refund existing db =
    if is_paid existing
    then create_outbox_event (refund_required existing.id existing.user_id existing.total_amount) db
    else db

-- What follows the transition of the order's row.
unfoldable pub release_order : (now order_id : ℕ) (existing order : Order) → Tx (Unit {0})
release_order now order_id existing order = do
  items ← read (get_order_items_for_restock order_id)
  for_each (λ item. write (restock_item order.id item)) items
  write (release_promo order.promo_id)
  return_points order_id order
  write (fail_pending_payments_for_order order_id now)
  write (notify_cancelled order)
  write (require_refund existing)

-- `handler` in `cancelOrderInternal`, in three parts: past the checks, past the lookup, and whole
unfoldable pub cancel_checked : (now order_id : ℕ) → Order → Tx Order
cancel_checked now order_id existing = do
  order ← or_throw (← transition_for_cancellation order_id) (invalid_operation changed_concurrently)
  release_order now order_id existing order
  pure order

unfoldable pub cancel_found : (now order_id : ℕ) (is_expiry : Bool) → Order → Tx Order
unfolding cancel_checked
cancel_found now order_id is_expiry existing = do
  check_cancellable is_expiry existing
  cancel_checked now order_id existing

unfoldable pub cancel_order_internal : (now order_id : ℕ) (is_expiry : Bool) → Tx Order
unfolding cancel_found
cancel_order_internal now order_id is_expiry = do
  existing ← or_throw (← read (find_order_by_id order_id)) (entity_not_found order_not_found)
  cancel_found now order_id is_expiry existing

-- The checks of `cancelOrder` on a row read outside the transaction.
unfoldable pub check_owner : ℕ → Order → Result (Unit {0})
check_owner user_id o =
    if not (o.user_id == user_id)
    then err (forbidden_operation not_own_order)
    else if is_cancelled o
    then err (invalid_operation already_cancelled)
    else if not (cancellable o.status)
    then err (invalid_operation not_cancellable)
    else ok tt

unfoldable pub cancel_order : (now user_id order_id : ℕ) → Db → Result Order × Db
cancel_order now user_id order_id db = elim (find_order_by_id order_id db) [
  | none ↦ (err (entity_not_found order_not_found), db)
  | some o ↦ elim (check_owner user_id o) [
    | err e ↦ (err e, db)
    | ok _ ↦ run_transaction (cancel_order_internal now order_id false) db
  ]
]

unfoldable pub expire_order : (now order_id : ℕ) → Db → Result Order × Db
expire_order now order_id = run_transaction (cancel_order_internal now order_id true)
