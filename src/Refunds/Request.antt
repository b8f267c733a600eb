-- ===== src/Refunds/Request.antt =====
-- A customer's request: `requestRefund` of server/src/modules/refunds/refunds.service.ts. The amount
-- is rounded to hundredths, and `none` if it is not a positive number.
use gramoz.Common.{ℕ, not, Option, none, some, ltb, ◌==◌, is_some}
use gramoz.Schema.Enums.{OrderStatus, RefundStatus, RefundReason, order_status_eq}
use gramoz.Schema.Rows.{Payment, Refund}
use gramoz.Tx.{
  Tx, ok, err, pure, read, throw_if, or_throw, ◌>>=◌, ◌>>◌, entity_not_found, forbidden_operation,
  invalid_operation, other_error, order_not_found, not_own_refund, not_delivered, refund_exists,
  refund_over_total, refund_amount_not_positive, unique_violation,
}
use gramoz.Orders.Store.{find_order_by_id}
use gramoz.Refunds.Store.{create_refund, find_active_refund, find_completed_payment}

pub record RequestRefundDto : Type 0 where
  pub order_id : ℕ
  pub payment_id : Option ℕ
  pub amount : Option ℕ
  pub reason : RefundReason

-- `completedPayment?.id || dto.paymentId || null`
abbrev pub payment_for : Option Payment → RequestRefundDto → Option ℕ
payment_for none dto = dto.payment_id
payment_for (some p) dto = some p.id

abbrev pub requested_refund : (id user amount : ℕ) → RequestRefundDto → Option Payment → Refund
requested_refund id user amount dto payment = record {
  id = id;
  order_id = dto.order_id;
  payment_id = payment_for payment dto;
  requested_by = user;
  processed_by = none;
  amount = amount;
  reason = dto.reason;
  status = RefundStatus.requested;
  admin_notes = none;
  gateway_refund_id = none;
}

-- The checks, which give the amount.
unfoldable pub check_refundable : (user : ℕ) → RequestRefundDto → Tx ℕ
check_refundable user dto = do
  amount ← or_throw dto.amount (invalid_operation refund_amount_not_positive)
  order ← or_throw (← read (find_order_by_id dto.order_id)) (entity_not_found order_not_found)
  throw_if (not (order.user_id == user)) (forbidden_operation not_own_refund)
  throw_if (not (order_status_eq order.status OrderStatus.delivered))
      (invalid_operation not_delivered)
  existing ← read (find_active_refund dto.order_id)
  throw_if (is_some existing) (invalid_operation refund_exists)
  throw_if (ltb order.total_amount amount) (invalid_operation refund_over_total)
  pure amount

-- `try { … } catch`: a unique violation becomes the message of a duplicate.
unfoldable pub insert_refund : Refund → Tx Refund
insert_refund row db = elim (create_refund row db) [
  | ok r ↦ ok r
  | err (other_error unique_violation) ↦ err (invalid_operation refund_exists)
  | err e ↦ err e
]

unfoldable pub create_request : (id user : ℕ) → RequestRefundDto → (amount : ℕ) → Tx Refund
create_request id user dto amount = read (find_completed_payment dto.order_id) >>= λ payment.
    insert_refund (requested_refund id user amount dto payment)

unfoldable pub request_refund : (id user : ℕ) → RequestRefundDto → Tx Refund
request_refund id user dto = check_refundable user dto >>= create_request id user dto
