-- ===== src/Payments/Callbacks.antt =====
-- The pages to which the gateway sends the customer back: `handleFailCallback` and
-- `handleCancelCallback` of server/src/modules/payments/payments.service.ts.
use gramoz.Common.{ℕ, Option, none, some, if◌then◌else◌, or_else}
use gramoz.Schema.{Db}
use gramoz.Schema.Enums.{OrderPaymentStatus, PaymentStatus}
use gramoz.Schema.Rows.{Order, Payment, GatewayResponse}
use gramoz.Tx.{Tx, pure, read, write, when, ◌>>=◌, ◌>>◌}
use gramoz.Orders.Store.{find_order_by_id}
use gramoz.Payments.Store.{
  find_payment_by_transaction, find_latest_pending_payment, update_payment, update_order,
  with_response, with_payment_status, is_terminal,
}
use gramoz.Payments.Signature.{Ipn}
use gramoz.Payments.Verify.{handle_failed_payment, ipn_response, may_reset}

-- The row of the pending payment as it is under the lock.
abbrev pub locked_payment : Payment → Db → Payment
locked_payment p db = elim p.transaction_id [
  | none ↦ p
  | some t ↦ or_else (find_payment_by_transaction t db) p
]

unfoldable pub fail_pending : (now order : ℕ) → GatewayResponse → Order → Payment → Tx (Unit {0})
fail_pending now order_id response order p =
    if is_terminal p.status
    then pure tt
    else (write (update_payment p.id (with_response now PaymentStatus.failed response))
        >> when (may_reset (some order))
            (write (update_order order_id (with_payment_status OrderPaymentStatus.unpaid))))

unfoldable pub fail_locked :
    (now order : ℕ) → GatewayResponse → (pending : Payment) → Option Order → Tx (Unit {0})
fail_locked now order_id response pending none = pure tt
fail_locked now order_id response pending (some order) =
    read (locked_payment pending) >>= fail_pending now order_id response order

-- Without a transaction id: the latest pending payment of the order in `value_a`.
unfoldable pub fail_latest : (now order : ℕ) → GatewayResponse → Option Payment → Tx (Unit {0})
fail_latest now order_id response none = pure tt
fail_latest now order_id response (some pending) =
    read (find_order_by_id order_id) >>= fail_locked now order_id response pending

unfoldable pub fail_by_order : (now : ℕ) → Ipn → Option ℕ → Tx (Unit {0})
fail_by_order now body none = pure tt
fail_by_order now body (some order_id) =
    read (find_latest_pending_payment order_id) >>= fail_latest now order_id (ipn_response body)

unfoldable pub handle_fail_callback : (now : ℕ) → Ipn → Tx (Unit {0})
handle_fail_callback now body = elim body.tran_id [
  | none ↦ fail_by_order now body body.value_a
  | some t ↦ handle_failed_payment now (some t) (ipn_response body) >>= (λ _. pure tt)
]

unfoldable pub handle_cancel_callback : (now : ℕ) → Ipn → Tx (Unit {0})
handle_cancel_callback now body = elim body.tran_id [
  | none ↦ fail_by_order now body body.value_a
  | some t ↦ handle_failed_payment now (some t) (ipn_response body) >>= (λ _. pure tt)
]
