-- ===== src/Payments/Store.antt =====
-- The statements of server/src/modules/payments/payments.store.ts. An id that the database gives a
-- new row, and the time, come with the call.
use gramoz.Common.{
  ℕ, String, Bool, false, ◌&&◌, ◌||◌, Option, none, some, List, [], ◌∷◌, leb, ◌==◌, if◌then◌else◌,
  str_eq,
}
use gramoz.Table.{find, select, update, exists}
use gramoz.Schema.{Db}
use gramoz.Schema.Enums.{
  OrderStatus, OrderPaymentStatus, PaymentStatus, payment_is_pending, payment_status_eq,
}
use gramoz.Schema.Rows.{Order, Payment, GatewayResponse}
use gramoz.Tx.{Tx, read, write, throw_if, pure, ◌>>=◌, ◌>>◌, other_error, unique_violation}
use gramoz.Orders.Store.{order_id_is}

-- A condition on a column that is null holds of no row.
abbrev pub transaction_is : String → Payment → Bool
transaction_is t p = elim p.transaction_id [ none ↦ false | some u ↦ str_eq u t ]

abbrev pub payment_id_is : ℕ → Payment → Bool
payment_id_is id p = p.id == id

-- `updateOrderStatus`, with what it sets as a function
unfoldable pub update_order : ℕ → (Order → Order) → Db → Db
update_order id f db = record db { orders = update (order_id_is id) f db.orders }

-- ORDER BY created_at DESC LIMIT 1
unfoldable pub later : Payment → Option Payment → Payment
later p none = p
later p (some q) = if leb q.created_at p.created_at then p else q

unfoldable pub latest : List Payment → Option Payment
latest [] = none
latest (p ∷ ps) = some (later p (latest ps))

unfoldable pub find_latest_payment : (order : ℕ) → Db → Option Payment
find_latest_payment order db = latest (select (λ p. p.order_id == order) db.payments)

unfoldable pub find_latest_pending_payment : (order : ℕ) → Db → Option Payment
find_latest_pending_payment order db =
    latest (select (λ p. p.order_id == order && payment_is_pending p.status) db.payments)

-- `findPaymentById` and `findPaymentByIdForUpdate`
abbrev pub find_payment_by_id : ℕ → Db → Option Payment
find_payment_by_id id db = find (payment_id_is id) db.payments

-- `findPaymentByTransactionId` and `findPaymentByTransactionIdForUpdate`
abbrev pub find_payment_by_transaction : String → Db → Option Payment
find_payment_by_transaction t db = find (transaction_is t) db.payments

-- The unique index on transaction_id
abbrev pub transaction_taken : Option String → List Payment → Bool
transaction_taken none ps = false
transaction_taken (some t) ps = exists (transaction_is t) ps

unfoldable pub create_payment : Payment → Tx Payment
create_payment row = do
  throw_if (← read (λ db. transaction_taken row.transaction_id db.payments))
      (other_error unique_violation)
  write (λ db. record db { payments = row ∷ db.payments })
  pure row

-- `updatePaymentStatus` with a status and without or with a gateway response
abbrev pub with_status : (now : ℕ) → PaymentStatus → Payment → Payment
with_status now s p = record p { status = s; updated_at = now }

abbrev pub with_response : (now : ℕ) → PaymentStatus → GatewayResponse → Payment → Payment
with_response now s r p = record p { status = s; gateway_response = some r; updated_at = now }

unfoldable pub update_payment : ℕ → (Payment → Payment) → Db → Db
update_payment id f db = record db { payments = update (payment_id_is id) f db.payments }

-- `{ paymentStatus: … }`
abbrev pub with_payment_status : OrderPaymentStatus → Order → Order
with_payment_status s o = record o { payment_status = s }

-- `{ status: 'processing', paymentStatus: 'paid' }`
abbrev pub processing_and_paid : Order → Order
processing_and_paid o = record o {
  status = OrderStatus.processing;
  payment_status = OrderPaymentStatus.paid;
}

-- `payment.status === 'completed' || payment.status === 'failed'`
abbrev pub is_terminal : PaymentStatus → Bool
is_terminal s =
    payment_status_eq s PaymentStatus.completed || payment_status_eq s PaymentStatus.failed
