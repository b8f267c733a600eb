-- ===== src/Orders/Status.antt =====
-- `updateOrderStatus` of server/src/modules/orders/orders.service.ts. The request's status comes as
-- text; `parse_status` is the test against `validStatuses`.
use gramoz.Common.{ℕ, String, false, not, Option, none, some, if◌then◌else◌, str_eq}
use gramoz.Schema.{Db}
use gramoz.Schema.Enums.{OrderStatus, order_status_eq}
use gramoz.Schema.Rows.{Order, SmsType, create_consignment, send_sms}
use gramoz.Tx.{
  Tx, Result, pure, read, write, ◌>>=◌, ◌>>◌, throw_if, or_throw, run_transaction, err,
  entity_not_found, invalid_operation, order_not_found, invalid_status, invalid_transition,
}
use gramoz.Orders.Transitions.{allowed}
use gramoz.Orders.Store.{
  find_order_by_id, update_order_status, get_user_basic_info, create_outbox_event,
}
use gramoz.Orders.Cancel.{cancel_order_internal}

unfoldable pub parse_status : String → Option OrderStatus
parse_status s =
    if str_eq s "pending"
    then some OrderStatus.pending
    else if str_eq s "processing"
    then some OrderStatus.processing
    else if str_eq s "shipped"
    then some OrderStatus.shipped
    else if str_eq s "out_for_delivery"
    then some OrderStatus.out_for_delivery
    else if str_eq s "delivered"
    then some OrderStatus.delivered
    else if str_eq s "cancelled"
    then some OrderStatus.cancelled
    else if str_eq s "refunded"
    then some OrderStatus.refunded
    else none

-- What a new status puts into the outbox.
unfoldable pub announce : OrderStatus → ℕ → Order → Db → Db
announce OrderStatus.shipped id order db = create_outbox_event (create_consignment id) db
announce OrderStatus.delivered id order db = elim (get_user_basic_info order.user_id db) [
  | none ↦ db
  | some u ↦ elim u.phone [
    | none ↦ db
    | some phone ↦
        if str_eq phone "" then db else create_outbox_event (send_sms SmsType.delivered phone id) db
  ]
]
announce _ id order db = db

-- The branch for a status that differs.
unfoldable pub move_order : ℕ → OrderStatus → Order → Tx Order
move_order id status existing = do
  throw_if (not (allowed existing.status status)) (invalid_operation invalid_transition)
  order ← or_throw (← update_order_status id status) (entity_not_found order_not_found)
  write (announce status id order)
  pure order

unfoldable pub set_status : ℕ → OrderStatus → Tx Order
set_status id status = do
  existing ← or_throw (← read (find_order_by_id id)) (entity_not_found order_not_found)
  if order_status_eq existing.status status then pure existing else move_order id status existing

unfoldable pub update_status : (now id : ℕ) → String → Db → Result Order × Db
update_status now id status db = elim (parse_status status) [
  | none ↦ (err (invalid_operation invalid_status), db)
  | some OrderStatus.cancelled ↦ run_transaction (cancel_order_internal now id false) db
  | some s ↦ run_transaction (set_status id s) db
]
