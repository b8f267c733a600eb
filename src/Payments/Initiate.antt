-- ===== src/Payments/Initiate.antt =====
-- Opening a payment session: `initiatePayment` of server/src/modules/payments/payments.service.ts.
-- The gateway's answer to the request is a parameter.
use gramoz.Common.{
  ℕ, ◌+◌, String, Bool, not, ◌||◌, Option, none, some, ltb, if◌then◌else◌, or_else, str_eq,
}
use gramoz.Schema.Enums.{OrderPaymentStatus, PaymentStatus, order_payment_eq, payment_is_pending}
use gramoz.Schema.Rows.{Order, Payment, User, GatewayResponse}
use gramoz.Tx.{
  Tx, Call, ok, err, pure, throw, read, write, throw_if, or_throw, ◌>>=◌, ◌>>◌, ◌>>>◌,
  run_transaction, entity_not_found, invalid_operation, already_paid_order, payment_in_progress,
  invalid_method, user_not_found, gateway_unreachable, order_is_cancelled,
}
use gramoz.Orders.Store.{find_order_by_id, get_user_basic_info}
use gramoz.Orders.Cancel.{is_cancelled}
use gramoz.Payments.Store.{
  create_payment, update_payment, update_order, with_payment_status, with_status, with_response,
  find_latest_payment, find_latest_pending_payment,
}
use gramoz.Payments.Cod.{find_payable_order, initiate_cod}

abbrev pub stale_payment_threshold_ms : ℕ
stale_payment_threshold_ms = 120_000

-- now - created < threshold: the difference may not be taken on ℕ
abbrev pub is_recent : (now : ℕ) → Payment → Bool
is_recent now p = ltb now (p.created_at + stale_payment_threshold_ms)

abbrev pub is_paid_or_refunded : OrderPaymentStatus → Bool
is_paid_or_refunded s =
    order_payment_eq s OrderPaymentStatus.paid || order_payment_eq s OrderPaymentStatus.refunded

-- The session of an order that is `initiated`, read before any transaction: one that is recent, or
-- that is not pending, refuses the call.
unfoldable pub stale_session : (now : ℕ) → Option Payment → Tx (Option Payment)
stale_session now none = throw (invalid_operation payment_in_progress)
stale_session now (some p) = do
  throw_if (not (payment_is_pending p.status)) (invalid_operation payment_in_progress)
  throw_if (is_recent now p) (invalid_operation payment_in_progress)
  pure (some p)

unfoldable pub find_stale_session : (now : ℕ) → Order → Tx (Option Payment)
find_stale_session now order =
    if order_payment_eq order.payment_status OrderPaymentStatus.initiated
    then read (find_latest_payment order.id) >>= stale_session now
    else pure none

-- The transaction that cancels it.
unfoldable pub cancel_stale : (now order : ℕ) → Option Payment → Tx (Unit {0})
cancel_stale now order none = pure tt
cancel_stale now order (some p) = do
  write (update_payment p.id (with_status now PaymentStatus.failed))
  write (update_order order (with_payment_status OrderPaymentStatus.unpaid))

-- `methodValue` and `multiCardName`
abbrev pub method_value : String → String
method_value m =
    if str_eq m "bkash" then "bKash" else if str_eq m "nagad" then "Nagad" else "SSLCommerz"

abbrev pub multi_card_name : String → String
multi_card_name m = if str_eq m "bkash" then "bkash" else if str_eq m "nagad" then "nagad" else ""

abbrev pub is_valid_method : String → Bool
is_valid_method m =
    str_eq m "sslcommerz" || (str_eq m "bkash" || (str_eq m "nagad" || str_eq m "cod"))

abbrev pub session_payment : (now id : ℕ) → (tran method : String) → Order → Payment
session_payment now id tran method order = record {
  id = id;
  order_id = order.id;
  amount = order.total_amount;
  status = PaymentStatus.pending;
  method = some method;
  transaction_id = some tran;
  gateway_response = none;
  created_at = now;
  updated_at = now;
}

-- A pending session of an order that is `initiated`: recent ones refuse, others fail.
unfoldable pub replace_session : (now : ℕ) → Option Payment → Tx (Unit {0})
replace_session now none = pure tt
replace_session now (some p) = do
  throw_if (is_recent now p) (invalid_operation payment_in_progress)
  write (update_payment p.id (with_status now PaymentStatus.failed))

unfoldable pub check_session : (now : ℕ) → Order → Tx (Unit {0})
check_session now locked = do
  throw_if (is_paid_or_refunded locked.payment_status) (invalid_operation already_paid_order)
  throw_if (is_cancelled locked) (invalid_operation order_is_cancelled)
  if order_payment_eq locked.payment_status OrderPaymentStatus.initiated
      then read (find_latest_pending_payment locked.id) >>= replace_session now
      else pure tt

-- The transaction that opens the session, with the order as it was read before.
unfoldable pub open_session : (now id : ℕ) → (tran method : String) → Order → Tx Payment
open_session now id tran method order = do
  locked ← read (λ db. or_else (find_order_by_id order.id db) order)
  check_session now locked
  payment ← create_payment (session_payment now id tran method locked)
  write (update_order order.id (with_payment_status OrderPaymentStatus.initiated))
  pure payment

-- The fields of the form that are computed; the rest are constants.
pub record SessionRequest : Type 0 where
  pub total_amount : ℕ
  pub tran_id : String
  pub cus_name : String
  pub cus_email : String
  pub cus_phone : String
  pub value_a : ℕ
  pub multi_card_name : String

-- `user.phone || '01700000000'`
abbrev pub phone_or_default : Option String → String
phone_or_default none = "01700000000"
phone_or_default (some p) = if str_eq p "" then "01700000000" else p

abbrev pub session_request : (tran requested : String) → Order → User → SessionRequest
session_request tran requested order user = record {
  total_amount = order.total_amount;
  tran_id = tran;
  cus_name = user.full_name;
  cus_email = user.email;
  cus_phone = phone_or_default user.phone;
  value_a = order.id;
  multi_card_name = multi_card_name requested;
}

-- A page to pay on, another status, or no answer.
pub data SessionAnswer : Type 0 where
  opened : (url : String) → SessionAnswer
  not_opened : GatewayResponse → SessionAnswer
  unreachable : SessionAnswer

pub data Initiated : Type 0 where
  by_cod : Payment → Initiated
  by_gateway : (url : String) → Initiated

abbrev pub cleanup : (now : ℕ) → SessionAnswer → Payment → Payment
cleanup now (not_opened r) p = with_response now PaymentStatus.failed r p
cleanup now _ p = with_status now PaymentStatus.failed p

unfoldable pub close_session : (now : ℕ) → SessionAnswer → Payment → Tx (Unit {0})
close_session now answer p = do
  write (update_payment p.id (cleanup now answer))
  write (update_order p.order_id (with_payment_status OrderPaymentStatus.unpaid))

unfoldable pub answer_session : (now : ℕ) → SessionAnswer → Payment → Call Initiated
answer_session now (opened url) p db = (ok (by_gateway url), db)
answer_session now answer p db = (
  err (invalid_operation gateway_unreachable),
  (run_transaction (close_session now answer p) db).1,
)

unfoldable pub check_unpaid : (now : ℕ) → Order → Tx (Order × Option Payment)
check_unpaid now order = do
  throw_if (is_paid_or_refunded order.payment_status) (invalid_operation already_paid_order)
  stale ← find_stale_session now order
  pure (order, stale)

-- The checks of `initiatePayment` up to the session in progress.
unfoldable pub check_initiate : (now user order : ℕ) → Tx (Order × Option Payment)
check_initiate now user order_id = find_payable_order user order_id >>= check_unpaid now

unfoldable pub find_payer : (user : ℕ) → Tx User
find_payer user =
    read (get_user_basic_info user) >>= λ u. or_throw u (entity_not_found user_not_found)

unfoldable pub pay_cod : (now id user order : ℕ) → Tx Initiated
pay_cod now id user order = initiate_cod now id user order >>= λ p. pure (by_cod p)

module _ (gateway : SessionRequest → SessionAnswer) where
  unfoldable pub pay_at_gateway :
      (now id : ℕ) → (tran requested : String) → Order → User → Call Initiated
  pay_at_gateway now id tran requested order user =
      run_transaction (open_session now id tran (method_value requested) order)
      >>> answer_session now (gateway (session_request tran requested order user))

  unfoldable pub pay_online :
      (now id : ℕ) → (tran requested : String) → (user : ℕ) → Order → Call Initiated
  pay_online now id tran requested user order =
      run_transaction (find_payer user) >>> pay_at_gateway now id tran requested order

  unfoldable pub pay_by :
      (now id : ℕ) → (tran requested : String) → (user : ℕ) → Order → Call Initiated
  pay_by now id tran requested user order db =
      if not (is_valid_method requested)
      then (err (invalid_operation invalid_method), db)
      else if str_eq requested "cod"
      then run_transaction (pay_cod now id user order.id) db
      else pay_online now id tran requested user order db

  unfoldable pub pay_checked :
      (now id : ℕ)
      → (tran requested : String) → (user order : ℕ) → Order × Option Payment
      → Call Initiated
  pay_checked now id tran requested user order_id r =
      run_transaction (cancel_stale now order_id r.1) >>> λ _. pay_by now id tran requested user r.0

  -- Its transactions and the request in between follow each other here without another call in
  -- between, so what the source does when one comes there, as on the rows it read before, is not seen.
  unfoldable pub initiate_payment :
      (now id : ℕ) → (tran requested : String) → (user order : ℕ) → Call Initiated
  initiate_payment now id tran requested user order_id =
      run_transaction (check_initiate now user order_id)
      >>> pay_checked now id tran requested user order_id
