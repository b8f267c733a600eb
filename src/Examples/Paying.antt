-- ===== src/Examples/Paying.antt =====
-- Payments in the example shop.
use gramoz.Common.{
  ◌≡◌, ◌≢◌, ◌≤◌, Option, Bool, sym, ap, ◌∙◌, str_eq, refl, String, true, false, none, some, [], ◌∷◌,
  length, arith, if◌then◌else◌,
}
use gramoz.Table.{select, exists}
use gramoz.Schema.{Db}
use gramoz.Schema.Enums.{OrderPaymentStatus, PaymentStatus}
use gramoz.Schema.Rows.{Payment}
use gramoz.Tx.{ok, run_transaction}
use gramoz.Orders.Store.{find_order_by_id, get_user_basic_info}
use gramoz.Payments.Store.{create_payment, update_payment, update_order, processing_and_paid}
use gramoz.Payments.Signature.{Ipn, validate_ipn_signature}
use gramoz.Payments.Cod.{find_payable_order}
use gramoz.Payments.Initiate.{
  SessionRequest, SessionAnswer, opened, by_gateway, initiate_payment, pay_checked, check_initiate,
  check_unpaid, find_stale_session, cancel_stale, pay_by, pay_online, pay_at_gateway, find_payer,
  open_session, check_session, answer_session,
}
use gramoz.Payments.Verify.{
  ValidationData, ValidationAnswer, validated, now_processing, already_processed,
  invalid_ipn_signature, verify_payment, verify_signed, act_on_answer, is_confirmed,
  over_by_rounding, parse_float, spacing, handle_successful_payment, check_payment, settle_payment,
  complete_payment, mark_order_paid, other_currency, other_transaction, wrong_amount, other_order,
}
use gramoz.Payments.Writes.{Keys, initiates as initiated, pending_for, settled_for, is_retryable}
use gramoz.Payments.Sound.{Sound, Tidy}
use gramoz.Payments.Sessions.{
  PaymentRun, done, next, initiates, notifies, completed_row, paid_is_backed, completed_is_final,
  one_live_session,
}
use gramoz.Payments.Settled.{Settled}
use gramoz.Payments.Trust.{
  unconfirmed_changes_nothing, replay_changes_nothing, settlement_is_confirmed,
}
use gramoz.Examples.Shop.{shop, pending_order, committed}

abbrev before : Db
before = record shop { orders = pending_order ∷ [] }

abbrev gateway : SessionRequest → SessionAnswer
gateway r = opened "https://pay"

abbrev waiting : Db
waiting = committed (initiate_payment gateway 200_000 800 "T1" "bkash" 1 500 before)

initiates_500 :
    initiate_payment gateway 200_000 800 "T1" "bkash" 1 500 before
    ≡ (ok (by_gateway "https://pay"), waiting)
unfolding initiate_payment pay_checked check_initiate check_unpaid find_stale_session cancel_stale
    pay_by pay_online pay_at_gateway find_payer open_session check_session answer_session
    find_payable_order create_payment update_order get_user_basic_info
initiates_500 = refl

-- A notification without a signature, with a validation id that the gateway knows.
abbrev ipn : Ipn
ipn = record {
  val_id = some "V1";
  tran_id = some "T1";
  status = some "VALID";
  value_a = some 500;
  bank_tran_id = some "B1";
  verify_sign = none;
  verify_sign_sha2 = none;
  verify_key = none;
  field = λ k. "";
}

abbrev told : ValidationData
told = record {
  status = some "VALID";
  tran_id = some "T1";
  currency_type = some "bdt";
  currency = none;
  amount = some 94_000;
  value_a = some 500;
  bank_tran_id = some "B1";
  val_id = some "V1";
}

abbrev confirm_all : String → ValidationAnswer
confirm_all w = validated told

abbrev hash : String → String
hash s = s

abbrev paid : Db
paid =
    committed (run_transaction (verify_payment hash hash "secret" confirm_all 260_000 ipn) waiting)

pays :
    run_transaction (verify_payment hash hash "secret" confirm_all 260_000 ipn) waiting
    ≡ (ok now_processing, paid)
unfolding verify_payment verify_signed act_on_answer is_confirmed handle_successful_payment
    check_payment settle_payment complete_payment mark_order_paid other_currency other_transaction
    wrong_amount other_order validate_ipn_signature update_payment update_order initiate_payment
    pay_checked check_initiate check_unpaid find_stale_session cancel_stale pay_by pay_online
    pay_at_gateway find_payer open_session check_session answer_session find_payable_order
    create_payment get_user_basic_info
pays = refl

keys : Keys before
keys = record { ids = tt; transactions = tt }

sound : Sound before
sound = record { keys = keys; backed = λ k o there h. ground (arith, there, h) }

tidy : Tidy 500 before
tidy = record { none_refunded = refl; sole = tt; idle = λ o there h. refl }

run : PaymentRun before paid
run =
    next
      (initiates gateway 200_000 800 "T1" "bkash" 1 500 (ok (by_gateway "https://pay")) refl
        initiates_500)
      (next (notifies hash hash "secret" confirm_all 260_000 ipn (ok now_processing) pays) done)

paid_order : find_order_by_id 500 paid ≡ some (processing_and_paid pending_order)
unfolding verify_payment verify_signed act_on_answer is_confirmed handle_successful_payment
    check_payment settle_payment complete_payment mark_order_paid other_currency other_transaction
    wrong_amount other_order validate_ipn_signature update_payment update_order initiate_payment
    pay_checked check_initiate check_unpaid find_stale_session cancel_stale pay_by pay_online
    pay_at_gateway find_payer open_session check_session answer_session find_payable_order
    create_payment get_user_basic_info
paid_order = refl

paid_is_backed_example : exists (settled_for 500) paid.payments ≡ true
paid_is_backed_example =
    paid_is_backed before paid 500 (processing_and_paid pending_order) sound run paid_order refl

one_live_session_example :
    length (select (pending_for 500) paid.payments)
    ≤ (if is_retryable (processing_and_paid pending_order) then 0 else 1)
one_live_session_example =
    one_live_session before paid 500 (processing_and_paid pending_order) keys tidy run paid_order

still_unpaid : (initiated pending_order).payment_status ≢ OrderPaymentStatus.paid
still_unpaid h = cc

waiting_order : find_order_by_id 500 waiting ≡ some (initiated pending_order)
unfolding initiate_payment pay_checked check_initiate check_unpaid find_stale_session cancel_stale
    pay_by pay_online pay_at_gateway find_payer open_session check_session answer_session
    find_payable_order create_payment update_order get_user_basic_info
waiting_order = refl

settlement_is_confirmed_example : Settled ipn confirm_all 500 (initiated pending_order) waiting paid
settlement_is_confirmed_example =
    settlement_is_confirmed hash hash "secret" confirm_all 260_000 ipn 500 (initiated pending_order)
      (processing_and_paid pending_order) waiting paid (ok now_processing) waiting_order
      still_unpaid pays paid_order refl

-- The doubles of 100.01 and 100 differ by more than 0.01, those of 2.01 and 2 do not.
rejects_the_cent : wrong_amount (some 10_001) 10_000 ≡ true
unfolding wrong_amount over_by_rounding parse_float spacing
rejects_the_cent = refl

accepts_the_cent : wrong_amount (some 201) 200 ≡ false
unfolding wrong_amount over_by_rounding parse_float spacing
accepts_the_cent = refl

-- The payment as it is when it is completed.
abbrev settled_payment : Payment
settled_payment = record {
  id = 800;
  order_id = 500;
  amount = 94_000;
  status = PaymentStatus.completed;
  method = some "bKash";
  transaction_id = some "T1";
  gateway_response = some (record { bank_tran_id = some "B1"; val_id = some "V1" });
  created_at = 200_000;
  updated_at = 260_000;
}

-- The shop after the payment, and the same notification again.
abbrev settled : Db
settled = record before {
  orders = processing_and_paid pending_order ∷ [];
  payments = settled_payment ∷ [];
}

settled-Keys : Keys settled
settled-Keys = record { ids = (refl, tt); transactions = (refl, tt) }

repeats :
    run_transaction (verify_payment hash hash "secret" confirm_all 300_000 ipn) settled
    ≡ (ok already_processed, settled)
unfolding verify_payment verify_signed act_on_answer is_confirmed handle_successful_payment
    check_payment settle_payment complete_payment other_currency other_transaction wrong_amount
    other_order validate_ipn_signature
repeats = refl

replay_changes_nothing_example : settled ≡ settled
replay_changes_nothing_example =
    replay_changes_nothing hash hash "secret" confirm_all 300_000 ipn "T1" settled_payment settled
      settled (ok already_processed) refl refl refl repeats

completed_is_final_example : exists (completed_row 800) settled.payments ≡ true
completed_is_final_example =
    completed_is_final settled settled 800 settled-Keys
      (next (notifies hash hash "secret" confirm_all 300_000 ipn (ok already_processed) repeats)
        done)
      refl

-- A gateway that does not confirm.
abbrev deny : String → ValidationAnswer
deny w = validated (record told { status = some "FAILED" })

denies :
    run_transaction (verify_payment hash hash "secret" deny 260_000 ipn) waiting
    ≡ (ok invalid_ipn_signature, waiting)
unfolding verify_payment verify_signed act_on_answer is_confirmed validate_ipn_signature
denies = refl

unsigned : validate_ipn_signature hash hash "secret" ipn ≡ false
unfolding validate_ipn_signature
unsigned = refl

abbrev says_failed : Option String → Bool
says_failed o = elim o [ none ↦ false | some s ↦ str_eq s "FAILED" ]

true≢false : true ≢ false
true≢false h = cc

failing :
    (d : ValidationData)
    → validated (record told { status = some "FAILED" }) ≡ validated d
    → says_failed d.status ≡ true
failing d e = ground (arith, e)

not_confirmed :
    (w : String) (d : ValidationData)
    → ipn.val_id ≡ some w
    → deny w ≡ validated d
    → (d.status ≢ some "VALID") × (d.status ≢ some "VALIDATED")
not_confirmed w d n e = (
  λ h. true≢false (sym (failing d e) ∙ ap says_failed h),
  λ h. true≢false (sym (failing d e) ∙ ap says_failed h),
)

unconfirmed_changes_nothing_example : waiting ≡ waiting
unconfirmed_changes_nothing_example =
    unconfirmed_changes_nothing hash hash "secret" deny 260_000 ipn waiting waiting
      (ok invalid_ipn_signature) unsigned not_confirmed denies
