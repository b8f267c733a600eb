-- ===== src/Payments/Verify.antt =====
-- The gateway's notification: `verifyPayment`, `handleSuccessfulPayment` and `handleFailedPayment` of
-- server/src/modules/payments/payments.service.ts. What the validation API answers is a parameter.
use gramoz.Common.{
  ℕ, ◌+◌, ◌-◌, ◌*◌, ◌/◌, String, Bool, true, false, not, ◌&&◌, ◌||◌, Option, none, some, ltb, ◌==◌,
  if◌then◌else◌, str_eq,
}
use gramoz.Schema.Enums.{OrderPaymentStatus, PaymentStatus, order_payment_eq, payment_status_eq}
use gramoz.Schema.Rows.{Order, Payment, GatewayResponse, reconciliation_required}
use gramoz.Tx.{
  Tx, pure, throw, read, write, or_throw, when, ◌>>=◌, ◌>>◌, entity_not_found, invalid_operation,
  payment_record_missing, verification_failed,
}
use gramoz.Orders.Store.{find_order_by_id, create_outbox_event}
use gramoz.Orders.Cancel.{is_cancelled}
use gramoz.Payments.Store.{
  find_payment_by_transaction, update_payment, update_order, with_response, with_payment_status,
  processing_and_paid, is_terminal,
}
use gramoz.Payments.Text.{is_bdt}
use gramoz.Payments.Signature.{Ipn, validate_ipn_signature}

-- The message of an answer; `success` is the flag beside it.
pub data Verdict : Type 0 where
  invalid_ipn_signature transaction_id_missing transaction_id_mismatch currency_mismatch : Verdict
  amount_mismatch order_id_mismatch already_processed needs_reconciliation now_processing : Verdict
  payment_record_not_found already_terminal payment_failed : Verdict

unfoldable pub success : Verdict → Bool
success already_processed = true
success needs_reconciliation = true
success now_processing = true
success _ = false

-- What the validation API answers. The amount is in hundredths and exact: `none` if it is not a
-- number, 0 if it is missing or not positive. A field that is missing or empty is `none`.
pub record ValidationData : Type 0 where
  pub status : Option String
  pub tran_id : Option String
  pub currency_type : Option String
  pub currency : Option String
  pub amount : Option ℕ
  pub value_a : Option ℕ
  pub bank_tran_id : Option String
  pub val_id : Option String

-- No answer, an error status, or a body.
pub data ValidationAnswer : Type 0 where
  no_validation : ValidationAnswer
  validated : ValidationData → ValidationAnswer

unfoldable pub other_currency : ValidationData → Bool
other_currency d = elim d.currency_type [
  | some c ↦ not (is_bdt c)
  | none ↦ elim d.currency [ some c ↦ not (is_bdt c) | none ↦ false ]
]

unfoldable pub other_transaction : String → Option String → Bool
other_transaction t none = false
other_transaction t (some u) = not (str_eq u t)

-- In units of 2 ^ -59: the spacing of the doubles around `q`, doubled from `u` until 53 bits hold it.
unfoldable pub spacing : (fuel u q : ℕ) → ℕ
spacing ℕ.zero u q = u
spacing (ℕ.suc fuel) u q = elim (ltb q (9_007_199_254_740_992 * u)) [
  | true ↦ u
  | false ↦ spacing fuel (2 * u) q
]

-- `parseFloat` of `n` hundredths, in the same units: the nearest double.
unfoldable pub parse_float : ℕ → ℕ
unfolding spacing
parse_float n =
    let u = spacing 64 1 (n * 576_460_752_303_423_488 / 100) in
    (2 * n * 576_460_752_303_423_488 + 100 * u) / (200 * u) * u

-- Amounts one hundredth apart whose difference, as doubles, is above the double 0.01. The difference
-- of two doubles that close is exact.
unfoldable pub over_by_rounding : (a e : ℕ) → Bool
unfolding parse_float
over_by_rounding a e =
    let x = parse_float a in
    let y = parse_float e in not (a == e) && ltb (parse_float 1) (x - y + (y - x))

-- Not a positive number, or further than 0.01 from the amount expected: on hundredths one apart the
-- rounding of the doubles decides, and amounts further apart are too far at every size of the column.
unfoldable pub wrong_amount : (reported : Option ℕ) → (expected : ℕ) → Bool
unfolding over_by_rounding
wrong_amount none e = true
wrong_amount (some a) e = a == 0 || (ltb (e + 1) a || (ltb (a + 1) e || over_by_rounding a e))

unfoldable pub other_order : (reported : Option ℕ) → (expected : ℕ) → Bool
other_order none e = false
other_order (some o) e = not (o == e)

abbrev pub order_is_cancelled : Option Order → Bool
order_is_cancelled none = false
order_is_cancelled (some o) = is_cancelled o

-- The order of a payment that is complete; a cancelled order stays so and is flagged.
unfoldable pub mark_order_paid : (tran : String) → Payment → (cancelled : Bool) → Tx Verdict
mark_order_paid tran p true = do
  write (update_order p.order_id (with_payment_status OrderPaymentStatus.paid))
  write (create_outbox_event (reconciliation_required p.order_id p.id p.amount tran))
  pure needs_reconciliation
mark_order_paid tran p false = do
  write (update_order p.order_id processing_and_paid)
  pure now_processing

unfoldable pub complete_payment :
    (now : ℕ) → (tran : String) → GatewayResponse → Option Order → Payment → Tx Verdict
complete_payment now tran response order p =
    if payment_status_eq p.status PaymentStatus.completed
    then pure already_processed
    else (write (update_payment p.id (with_response now PaymentStatus.completed response))
        >> mark_order_paid tran p (order_is_cancelled order))

abbrev pub response_of : ValidationData → GatewayResponse
response_of d = record { bank_tran_id = d.bank_tran_id; val_id = d.val_id }

-- The transaction of `handleSuccessfulPayment`.
unfoldable pub settle_payment :
    (now : ℕ) → (tran : String) → GatewayResponse → (order : ℕ) → Tx Verdict
settle_payment now tran response order_id = do
  order ← read (find_order_by_id order_id)
  payment ←
      or_throw (← read (find_payment_by_transaction tran)) (entity_not_found payment_record_missing)
  complete_payment now tran response order payment

unfoldable pub check_payment :
    (now : ℕ) → (tran : String) → ValidationData → (existing : Payment) → Tx Verdict
check_payment now tran d existing =
    if wrong_amount d.amount existing.amount
    then pure amount_mismatch
    else if other_order d.value_a existing.order_id
    then pure order_id_mismatch
    else settle_payment now tran (response_of d) existing.order_id

unfoldable pub handle_successful_payment :
    (now : ℕ) → (tran : Option String) → ValidationData → Tx Verdict
handle_successful_payment now none d = pure transaction_id_missing
handle_successful_payment now (some tran) d =
    if other_transaction tran d.tran_id
    then pure transaction_id_mismatch
    else if other_currency d
    then pure currency_mismatch
    else (read (find_payment_by_transaction tran)
        >>= (λ row. or_throw row (entity_not_found payment_record_missing))
        >>= check_payment now tran d)

-- The order may be paid again, unless it is paid or cancelled.
abbrev pub may_reset : Option Order → Bool
may_reset none = false
may_reset (some o) =
    not (order_payment_eq o.payment_status OrderPaymentStatus.paid) && not (is_cancelled o)

unfoldable pub fail_payment : (now : ℕ) → GatewayResponse → Option Order → Payment → Tx Verdict
fail_payment now response order p =
    if is_terminal p.status
    then pure already_terminal
    else (write (update_payment p.id (with_response now PaymentStatus.failed response))
        >> when (may_reset order)
            (write (update_order p.order_id (with_payment_status OrderPaymentStatus.unpaid)))
        >> pure payment_failed)

-- The transaction of `handleFailedPayment`.
unfoldable pub settle_failure :
    (now : ℕ) → (tran : String) → GatewayResponse → (order : ℕ) → Tx Verdict
settle_failure now tran response order_id = do
  order ← read (find_order_by_id order_id)
  payment ← read (find_payment_by_transaction tran)
  elim payment [ none ↦ pure payment_record_not_found | some p ↦ fail_payment now response order p ]

unfoldable pub fail_existing :
    (now : ℕ) → (tran : String) → GatewayResponse → (existing : Option Payment) → Tx Verdict
fail_existing now tran response none = pure payment_record_not_found
fail_existing now tran response (some e) = settle_failure now tran response e.order_id

unfoldable pub handle_failed_payment :
    (now : ℕ) → (tran : Option String) → GatewayResponse → Tx Verdict
handle_failed_payment now none response = pure payment_record_not_found
handle_failed_payment now (some tran) response =
    read (find_payment_by_transaction tran) >>= fail_existing now tran response

-- `status === 'VALID' || status === 'VALIDATED'`
unfoldable pub is_confirmed : ValidationData → Bool
is_confirmed d = elim d.status [ none ↦ false | some s ↦ str_eq s "VALID" || str_eq s "VALIDATED" ]

abbrev pub says_valid : Ipn → Bool
says_valid ipn = elim ipn.status [ none ↦ false | some s ↦ str_eq s "VALID" ]

abbrev pub ipn_response : Ipn → GatewayResponse
ipn_response ipn = record { bank_tran_id = ipn.bank_tran_id; val_id = ipn.val_id }

-- What follows the answer of the validation API.
unfoldable pub act_on_answer : (now : ℕ) → (signed : Bool) → Ipn → ValidationAnswer → Tx Verdict
act_on_answer now signed ipn no_validation = throw (invalid_operation verification_failed)
act_on_answer now signed ipn (validated d) =
    if is_confirmed d
    then handle_successful_payment now ipn.tran_id d
    else if not signed
    then pure invalid_ipn_signature
    else handle_failed_payment now ipn.tran_id (response_of d)

-- `verifyPayment`, given whether the signature is right.
unfoldable pub verify_signed :
    (validate : String → ValidationAnswer) (now : ℕ) (signed : Bool) → Ipn → Tx Verdict
verify_signed validate now signed ipn = elim ipn.val_id [
  | none ↦
      if signed
      then handle_failed_payment now ipn.tran_id (ipn_response ipn)
      else pure invalid_ipn_signature
  | some v ↦
      if says_valid ipn
      then act_on_answer now signed ipn (validate v)
      else if signed
      then handle_failed_payment now ipn.tran_id (ipn_response ipn)
      else pure invalid_ipn_signature
]

module _ (sha256 md5 : String → String) (store_passwd : String)
    (validate : String → ValidationAnswer) where
  unfoldable pub verify_payment : (now : ℕ) → Ipn → Tx Verdict
  verify_payment now ipn =
      verify_signed validate now (validate_ipn_signature sha256 md5 store_passwd ipn) ipn
