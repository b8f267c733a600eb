-- ===== src/Payments/Cod.antt =====
-- Cash on delivery: `initiateCod` of server/src/modules/payments/payments.service.ts.
use gramoz.Common.{ℕ, Bool, not, ◌&&◌, ◌||◌, none, some, ◌==◌, or_else}
use gramoz.Schema.Enums.{OrderPaymentStatus, PaymentStatus, order_payment_eq}
use gramoz.Schema.Rows.{Order, Payment}
use gramoz.Tx.{
  Tx, pure, read, write, throw_if, or_throw, ◌>>=◌, ◌>>◌, entity_not_found, forbidden_operation,
  invalid_operation, order_not_found, not_your_order, order_is_cancelled, payment_exists,
}
use gramoz.Orders.Store.{find_order_by_id}
use gramoz.Orders.Cancel.{is_cancelled}
use gramoz.Payments.Store.{create_payment, update_order, with_payment_status}

-- The checks that both ways of paying begin with.
unfoldable pub find_payable_order : (user order : ℕ) → Tx Order
find_payable_order user id = do
  order ← or_throw (← read (find_order_by_id id)) (entity_not_found order_not_found)
  throw_if (not (order.user_id == user)) (forbidden_operation not_your_order)
  throw_if (is_cancelled order) (invalid_operation order_is_cancelled)
  pure order

-- `nonRetryableStatuses.includes(…)`
abbrev pub non_retryable : OrderPaymentStatus → Bool
non_retryable s =
    order_payment_eq s OrderPaymentStatus.initiated
    || (order_payment_eq s OrderPaymentStatus.paid
        || order_payment_eq s OrderPaymentStatus.refunded)

abbrev pub cod_payment : (now id : ℕ) → Order → Payment
cod_payment now id order = record {
  id = id;
  order_id = order.id;
  amount = order.total_amount;
  status = PaymentStatus.pending;
  method = some "COD";
  transaction_id = none;
  gateway_response = none;
  created_at = now;
  updated_at = now;
}

abbrev pub was_initiated : (order locked : Order) → Bool
was_initiated order locked =
    non_retryable locked.payment_status
    && not (order_payment_eq locked.payment_status order.payment_status)

unfoldable pub put_cod_payment : (now id : ℕ) → (order locked : Order) → Tx Payment
put_cod_payment now id order locked = do
  throw_if (was_initiated order locked) (invalid_operation payment_exists)
  payment ← create_payment (cod_payment now id locked)
  write (update_order order.id (with_payment_status OrderPaymentStatus.initiated))
  pure payment

-- The transaction, with the order as it was read before.
unfoldable pub create_cod_payment : (now id : ℕ) → Order → Tx Payment
create_cod_payment now id order =
    read (λ db. or_else (find_order_by_id order.id db) order) >>= put_cod_payment now id order

unfoldable pub initiate_cod : (now id user order : ℕ) → Tx Payment
initiate_cod now id user order_id = do
  order ← find_payable_order user order_id
  throw_if (non_retryable order.payment_status) (invalid_operation payment_exists)
  create_cod_payment now id order
