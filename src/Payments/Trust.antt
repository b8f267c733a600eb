-- ===== src/Payments/Trust.antt =====
-- What a notification can bring about: `verifyPayment` of
-- server/src/modules/payments/payments.service.ts.
use gramoz.Common.{ℕ, ◌≡◌, ◌≢◌, ap, sym, ◌∙◌, String, true, false, some, arith, inl, inr}
use gramoz.Schema.{Db}
use gramoz.Schema.Enums.{OrderPaymentStatus}
use gramoz.Schema.Rows.{Order, Payment, GatewayResponse}
use gramoz.Tx.{Result, ok, run_transaction}
use gramoz.Tx.Calls.{run-inv}
use gramoz.Orders.Store.{find_order_by_id}
use gramoz.Payments.Store.{find_payment_by_transaction}
use gramoz.Payments.Signature.{Ipn, validate_ipn_signature}
use gramoz.Payments.Verify.{
  Verdict, ValidationData, ValidationAnswer, validated, verify_payment, handle_successful_payment,
  handle_failed_payment, fail_existing, settle_failure, fail_payment, check_payment, settle_payment,
  complete_payment,
}
use gramoz.Payments.Writes.{is_completed}
use gramoz.Payments.Settling.{confirmed_status, success-cases, failure-cases}
use gramoz.Payments.Settled.{Settled, settled, unpaid_still, not_freed, settled_order}
use gramoz.Payments.Answering.{Verified, ignored, denied, verify-cases}

module _ (sha256 md5 : String → String) (store_passwd : String)
    (validate : String → ValidationAnswer) where
  -- A notification whose signature is wrong changes nothing, unless the gateway answers this
  -- notification's own validation id with the status VALID or VALIDATED.
  pub unconfirmed_changes_nothing :
      (now : ℕ) (ipn : Ipn) (a b : Db) (r : Result Verdict)
      → validate_ipn_signature sha256 md5 store_passwd ipn ≡ false
      → ((w : String) (d : ValidationData)
          → ipn.val_id ≡ some w
          → validate w ≡ validated d
          → (d.status ≢ some "VALID") × (d.status ≢ some "VALIDATED"))
      → run_transaction (verify_payment sha256 md5 store_passwd validate now ipn) a ≡ (r, b)
      → b ≡ a
  unfolding verify_payment
  unconfirmed_changes_nothing now ipn a b r s c h =
      elim (run-inv (verify_payment sha256 md5 store_passwd validate now ipn) a h) [
        | inr (same, _) ↦ same
        | inl (v, _, e) ↦
            elim (verify-cases validate now ipn a
              (validate_ipn_signature sha256 md5 store_passwd ipn) e) [
                | ignored _ same ↦ same
                | denied g t _ ↦ ground (arith, s, t)
                | Verified.confirmed w d n f t _ ↦ elim (confirmed_status d t) [
                  | inl valid ↦ absurd ((c w d n f).0 valid)
                  | inr validated_before ↦ absurd ((c w d n f).1 validated_before)
                ]
              ]
      ]

completed_success :
    (now : ℕ) (t : String) (d : ValidationData) (p : Payment) (a : Db) {v : Verdict} {b : Db}
    → find_payment_by_transaction t a ≡ some p
    → is_completed p ≡ true
    → handle_successful_payment now (some t) d a ≡ ok (v, b)
    → b ≡ a
unfolding handle_successful_payment check_payment settle_payment complete_payment
completed_success now t d p a n c h = ground (arith, n, c, h)

completed_failure :
    (now : ℕ) (t : String) (g : GatewayResponse) (p : Payment) (a : Db) {v : Verdict} {b : Db}
    → find_payment_by_transaction t a ≡ some p
    → is_completed p ≡ true
    → handle_failed_payment now (some t) g a ≡ ok (v, b)
    → b ≡ a
unfolding handle_failed_payment fail_existing settle_failure fail_payment
completed_failure now t g p a n c h = ground (arith, n, c, h)

module _ (sha256 md5 : String → String) (store_passwd : String)
    (validate : String → ValidationAnswer) where
  -- Any further notification of a transaction whose payment is completed changes nothing.
  pub replay_changes_nothing :
      (now : ℕ) (ipn : Ipn) (t : String) (p : Payment) (a b : Db) (r : Result Verdict)
      → ipn.tran_id ≡ some t
      → find_payment_by_transaction t a ≡ some p
      → is_completed p ≡ true
      → run_transaction (verify_payment sha256 md5 store_passwd validate now ipn) a ≡ (r, b)
      → b ≡ a
  unfolding verify_payment
  replay_changes_nothing now ipn t p a b r i n c h =
      elim (run-inv (verify_payment sha256 md5 store_passwd validate now ipn) a h) [
        | inr (same, _) ↦ same
        | inl (v, _, e) ↦
            elim (verify-cases validate now ipn a
              (validate_ipn_signature sha256 md5 store_passwd ipn) e) [
                | ignored _ same ↦ same
                | denied g _ f ↦
                    completed_failure now t g p a n c
                      (ap (λ o. handle_failed_payment now o g a) (sym i) ∙ f)
                | Verified.confirmed w d _ _ _ f ↦
                    completed_success now t d p a n c
                      (ap (λ o. handle_successful_payment now o d a) (sym i) ∙ f)
              ]
      ]

-- If a notification makes an order paid that was not paid, whatever it is answered with, then the
-- gateway answered its validation id with VALID or VALIDATED; the payment of its transaction is of
-- that order, was not completed and is for the amount reported, up to one hundredth; this payment
-- becomes completed and the order processing, or stays cancelled; and no other order or payment
-- changes.
pub settlement_is_confirmed :
    (sha256 md5 : String → String) (store_passwd : String) (validate : String → ValidationAnswer)
    (now : ℕ) (ipn : Ipn) (k : ℕ) (x y : Order) (a b : Db) (r : Result Verdict)
    → find_order_by_id k a ≡ some x
    → x.payment_status ≢ OrderPaymentStatus.paid
    → run_transaction (verify_payment sha256 md5 store_passwd validate now ipn) a ≡ (r, b)
    → find_order_by_id k b ≡ some y
    → y.payment_status ≡ OrderPaymentStatus.paid
    → Settled ipn validate k x a b
unfolding verify_payment
settlement_is_confirmed sha256 md5 store_passwd validate now ipn k x y a b r there n h after paid =
    let still = unpaid_still k x y a b there n after paid in
    elim (run-inv (verify_payment sha256 md5 store_passwd validate now ipn) a h) [
      | inr (same, _) ↦ absurd (still (ap (λ s. s.orders) same))
      | inl (v, _, e) ↦
          elim (verify-cases validate now ipn a (validate_ipn_signature sha256 md5 store_passwd ipn)
            e) [
              | ignored _ same ↦ absurd (still (ap (λ s. s.orders) same))
              | denied g _ f ↦ elim (failure-cases now ipn.tran_id g a f) [
                | inl same ↦ absurd (still same)
                | inr (j, w) ↦ absurd (not_freed k x y a b there n after paid j w)
              ]
              | Verified.confirmed w d q i c f ↦ elim (success-cases now ipn.tran_id d a f) [
                | inl same ↦ absurd (still same)
                | inr (t, p, m, u, s) ↦
                    settled ipn validate k x a b there now t w d p (q, i, c) (m, u)
                      (settled_order now k d p x y a b s there n after paid) s
              ]
            ]
    ]
