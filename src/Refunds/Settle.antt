-- ===== src/Refunds/Settle.antt =====
-- The settlement of a refund: the final transaction of `processRefund` in
-- server/src/modules/refunds/refunds.service.ts.
use gramoz.Common.{
  ℕ, String, Bool, true, false, not, ◌&&◌, ◌||◌, Option, none, some, if◌then◌else◌, is_some,
}
use gramoz.Table.{find}
use gramoz.Schema.{Db}
use gramoz.Schema.Enums.{
  OrderStatus, OrderPaymentStatus, PaymentStatus, RefundStatus, RefundReason, damaged_item, inward,
  order_status_eq, refund_status_eq,
}
use gramoz.Schema.Rows.{Order, OrderItem, Payment, Refund}
use gramoz.Tx.{
  Tx, read, write, throw_if, or_throw, when, for_each, ◌>>=◌, ◌>>◌, entity_not_found,
  invalid_operation, refund_not_found, refund_settled, refund_in_flight, linked_order_missing,
}
use gramoz.Orders.Store.{
  find_order_by_id, get_order_items_for_restock, restore_product_stock, restore_variant_stock,
  create_inventory_transaction, variant_id_is,
}
use gramoz.Orders.Cancel.{return_points}
use gramoz.Payments.Store.{find_payment_by_id, update_payment, update_order, with_status}
use gramoz.Payments.Gateway.{either}
use gramoz.Refunds.Store.{find_refund_by_id, has_been_restocked, update_refund}

pub data Decision : Type 0 where
  approved processing processed rejected : Decision

-- A text that is missing or empty is `none`.
pub record ProcessRefundDto : Type 0 where
  pub status : Decision
  pub admin_notes : Option String
  pub gateway_refund_id : Option String

-- `status === 'processed' || status === 'rejected'`
abbrev pub is_closed : Refund → Bool
is_closed r =
    refund_status_eq r.status RefundStatus.processed
    || refund_status_eq r.status RefundStatus.rejected

abbrev pub is_in_flight : Refund → Bool
is_in_flight r = refund_status_eq r.status RefundStatus.processing

-- `{ paymentStatus: 'refunded', status: 'refunded' }`
abbrev pub refunded_order : Order → Order
refunded_order o = record o {
  status = OrderStatus.refunded;
  payment_status = OrderPaymentStatus.refunded;
}

abbrev pub linked_payment : Refund → Db → Option Payment
linked_payment r db = elim r.payment_id [ none ↦ none | some p ↦ find_payment_by_id p db ]

unfoldable pub refund_linked_payment : (now : ℕ) → Option Payment → Db → Db
refund_linked_payment now none db = db
refund_linked_payment now (some p) db =
    update_payment p.id (with_status now PaymentStatus.refunded) db

abbrev pub is_damaged : RefundReason → Bool
is_damaged damaged_item = true
is_damaged _ = false

-- The stock of a variant that is still there, or of a product without variants.
unfoldable pub restock_saleable : Option ℕ → (product quantity : ℕ) → Db → Db
restock_saleable none product quantity db = restore_product_stock product quantity db
restock_saleable (some v) product quantity db = elim (find (variant_id_is v) db.variants) [
  | none ↦ db
  | some _ ↦ restore_variant_stock v quantity db
]

unfoldable pub restock_returned : RefundReason → OrderItem → Db → Db
restock_returned reason item db =
    if is_damaged reason
    then db
    else restock_saleable item.variant_id item.product_id item.quantity db

-- One round of either loop: the stock, and the row that records the return.
unfoldable pub return_item : (refund : ℕ) → RefundReason → OrderItem → Db → Db
return_item refund reason item db =
    create_inventory_transaction
      (record {
        product_id = item.product_id;
        transaction_type = inward;
        quantity = item.quantity;
        reference_id = some refund;
      })
      (restock_returned reason item db)

unfoldable pub return_items : (refund : ℕ) → RefundReason → (order : ℕ) → Tx (Unit {0})
return_items refund reason order = do
  items ← read (get_order_items_for_restock order)
  for_each (λ item. write (return_item refund reason item)) items

-- `!wasCancelled && !orderRestocked && !refundRestocked`
abbrev pub must_restock : (refund : ℕ) → Order → Db → Bool
must_restock refund order db =
    not (order_status_eq order.status OrderStatus.cancelled)
    && (not (has_been_restocked order.id db) && not (has_been_restocked refund db))

unfoldable pub restock_order : (refund : ℕ) → RefundReason → Order → Tx (Unit {0})
restock_order refund reason order = do
  must ← read (must_restock refund order)
  when must (return_items refund reason order.id)

abbrev pub processed_refund :
    (admin : ℕ)
    → ProcessRefundDto
    → (gateway_ref : Option String) → (locked : Refund) → Refund
    → Refund
processed_refund admin dto gateway_ref locked r = record r {
  status = RefundStatus.processed;
  admin_notes = either dto.admin_notes locked.admin_notes;
  gateway_refund_id = either gateway_ref (either dto.gateway_refund_id locked.gateway_refund_id);
  processed_by = some admin;
}

-- Parts 1 and 2 of the transaction
unfoldable pub mark_refunded : (now : ℕ) → Option Payment → Order → Db → Db
mark_refunded now payment order db =
    update_order order.id refunded_order (refund_linked_payment now payment db)

-- Parts 3 and 4
unfoldable pub return_goods : (refund : ℕ) → RefundReason → Order → Tx (Unit {0})
return_goods refund reason order = restock_order refund reason order >> return_points order.id order

-- All five parts
unfoldable pub write_settlement :
    (now admin : ℕ)
    → ProcessRefundDto
    → (gateway_ref : Option String) → Order
    → Option Payment
    → (locked : Refund) → Tx (Option Refund)
write_settlement now admin dto gateway_ref order payment locked = do
  write (mark_refunded now payment order)
  return_goods locked.id locked.reason order
  update_refund locked.id (processed_refund admin dto gateway_ref locked)

-- The checks on the locked row. No call gets here with a claim of its own.
unfoldable pub check_settlement : ProcessRefundDto → Refund → Tx (Unit {0})
check_settlement dto locked = do
  throw_if (is_closed locked) (invalid_operation refund_settled)
  throw_if (not (is_some dto.gateway_refund_id) && is_in_flight locked)
      (invalid_operation refund_in_flight)

unfoldable pub settle_locked :
    (now admin : ℕ)
    → ProcessRefundDto
    → (gateway_ref : Option String) → Order
    → Option Payment
    → (locked : Refund) → Tx (Option Refund)
settle_locked now admin dto gateway_ref order payment locked =
    check_settlement dto locked >> write_settlement now admin dto gateway_ref order payment locked

-- `existing` is the row as it was read before.
unfoldable pub settle_refund :
    (now admin : ℕ)
    → ProcessRefundDto
    → (gateway_ref : Option String) → (existing : Refund) → Tx (Option Refund)
settle_refund now admin dto gateway_ref existing = do
  order ←
      or_throw (← read (find_order_by_id existing.order_id)) (entity_not_found linked_order_missing)
  payment ← read (linked_payment existing)
  locked ← or_throw (← read (find_refund_by_id existing.id)) (entity_not_found refund_not_found)
  settle_locked now admin dto gateway_ref order payment locked
