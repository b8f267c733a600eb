-- ===== src/Payments/Answering.antt =====
-- The writes of the notifications and of the callbacks.
use gramoz.Common.{
  ℕ, ◌≡◌, refl, String, Bool, true, false, Option, none, some, arith, if◌then◌else◌, Bool-cases,
  Option-cases, inl, inr,
}
use gramoz.Table.{find}
use gramoz.Table.Unique.{find_unique}
use gramoz.Schema.{Db}
use gramoz.Schema.Enums.{OrderPaymentStatus, PaymentStatus}
use gramoz.Schema.Rows.{Order, Payment, GatewayResponse}
use gramoz.Tx.{ok, pure}
use gramoz.Orders.Store.{find_order_by_id, create_outbox_event}
use gramoz.Payments.Store.{
  payment_id_is, transaction_is, update_payment, update_order, with_response, with_payment_status,
  processing_and_paid, is_terminal, find_payment_by_transaction,
}
use gramoz.Payments.Signature.{Ipn}
use gramoz.Payments.Verify.{
  Verdict, ValidationData, ValidationAnswer, no_validation, validated, mark_order_paid,
  complete_payment, settle_payment, check_payment, handle_successful_payment, fail_payment,
  settle_failure, fail_existing, handle_failed_payment, act_on_answer, verify_signed,
  order_is_cancelled, may_reset, response_of, is_confirmed, says_valid, ipn_response, wrong_amount,
  other_order, other_transaction, other_currency,
}
use gramoz.Payments.Writes.{
  same_payment, is_completed, failed, completed, Writes, nothing, one, Keys, id_Single,
}

-- The row of a transaction is the row of its id.
pub by_id :
    (t : String) (a : Db) {p : Payment}
    → Keys a
    → find_payment_by_transaction t a ≡ some p
    → find (payment_id_is p.id) a.payments ≡ some p
by_id t a {p} k e =
    find_unique same_payment (payment_id_is p.id) (transaction_is t) a.payments (id_Single p.id)
      k.ids e (ground arith)

complete-Writes :
    {S : ℕ → Type 0} (now : ℕ) (tran : String) (g : GatewayResponse) (o : Option Order)
    (p : Payment) (a : Db) {v : Verdict} {b : Db}
    → find (payment_id_is p.id) a.payments ≡ some p
    → complete_payment now tran g o p a ≡ ok (v, b)
    → Writes S a b
unfolding complete_payment mark_order_paid update_payment update_order create_outbox_event
complete-Writes now tran g o p a e h = elim (Bool-cases (is_completed p)) [
  | inl i ↦ nothing (ground (arith, i, h))
  | inr i ↦ elim (Bool-cases (order_is_cancelled o)) [
    | inl j ↦ one (
        completed p (with_response now PaymentStatus.completed g)
          (with_payment_status OrderPaymentStatus.paid) e i (λ y. (refl, refl, refl, refl))
          (λ y. (refl, refl)) (ground (arith, i, j, h)) (ground (arith, i, j, h)))
    | inr j ↦ one (
        completed p (with_response now PaymentStatus.completed g) processing_and_paid e i
          (λ y. (refl, refl, refl, refl)) (λ y. (refl, refl)) (ground (arith, i, j, h))
          (ground (arith, i, j, h)))
  ]
]

settle-Writes :
    {S : ℕ → Type 0} (now : ℕ) (tran : String) (g : GatewayResponse) (order : ℕ) (a : Db)
    {v : Verdict} {b : Db}
    → Keys a
    → settle_payment now tran g order a ≡ ok (v, b)
    → Writes S a b
unfolding settle_payment
settle-Writes now tran g order a {v} {b} k h =
    elim (Option-cases (find_payment_by_transaction tran a)) [
      | inl n ↦ ground (arith, n, h)
      | inr (p, n) ↦
          let done : complete_payment now tran g (find_order_by_id order a) p a ≡ ok (v, b) =
            ground (arith, n, h) in
          complete-Writes now tran g (find_order_by_id order a) p a (by_id tran a k n) done
    ]

success-Writes :
    {S : ℕ → Type 0} (now : ℕ) (tran : Option String) (d : ValidationData) (a : Db) {v : Verdict}
    {b : Db}
    → Keys a
    → handle_successful_payment now tran d a ≡ ok (v, b)
    → Writes S a b
unfolding handle_successful_payment check_payment
success-Writes now none d a k h = nothing (ground (arith, h))
success-Writes now (some t) d a {v} {b} k h = elim (Bool-cases (other_transaction t d.tran_id)) [
  | inl i ↦ nothing (ground (arith, i, h))
  | inr i ↦ elim (Bool-cases (other_currency d)) [
    | inl j ↦ nothing (ground (arith, i, j, h))
    | inr j ↦ elim (Option-cases (find_payment_by_transaction t a)) [
      | inl n ↦ ground (arith, i, j, n, h)
      | inr (p, n) ↦ elim (Bool-cases (wrong_amount d.amount p.amount)) [
        | inl l ↦ nothing (ground (arith, i, j, n, l, h))
        | inr l ↦ elim (Bool-cases (other_order d.value_a p.order_id)) [
          | inl m ↦ nothing (ground (arith, i, j, n, l, m, h))
          | inr m ↦
              let done : settle_payment now t (response_of d) p.order_id a ≡ ok (v, b) =
                ground (arith, i, j, n, l, m, h) in
              settle-Writes now t (response_of d) p.order_id a k done
        ]
      ]
    ]
  ]
]

fail-Writes :
    {S : ℕ → Type 0} (now : ℕ) (g : GatewayResponse) (o : Option Order) (p : Payment) (a : Db)
    {v : Verdict} {b : Db}
    → find (payment_id_is p.id) a.payments ≡ some p
    → fail_payment now g o p a ≡ ok (v, b)
    → Writes S a b
unfolding fail_payment update_payment update_order
fail-Writes now g o p a e h = elim (Bool-cases (is_terminal p.status)) [
  | inl i ↦ nothing (ground (arith, i, h))
  | inr i ↦ one (
      failed p (with_response now PaymentStatus.failed g) (may_reset o) e i
        (λ y. (refl, refl, refl, refl)) (ground (arith, i, h)) (ground (arith, i, h)))
]

pub failure-Writes :
    {S : ℕ → Type 0} (now : ℕ) (tran : Option String) (g : GatewayResponse) (a : Db) {v : Verdict}
    {b : Db}
    → Keys a
    → handle_failed_payment now tran g a ≡ ok (v, b)
    → Writes S a b
unfolding handle_failed_payment fail_existing settle_failure
failure-Writes now none g a k h = nothing (ground (arith, h))
failure-Writes now (some t) g a {v} {b} k h =
    elim (Option-cases (find_payment_by_transaction t a)) [
      | inl n ↦ nothing (ground (arith, n, h))
      | inr (p, n) ↦
          let done : fail_payment now g (find_order_by_id p.order_id a) p a ≡ ok (v, b) =
            ground (arith, n, h) in
          fail-Writes now g (find_order_by_id p.order_id a) p a (by_id t a k n) done
    ]

-- What `verifyPayment` comes to: nothing, a failure that is signed, or a success that the validation
-- API confirms.
pub data Verified (validate : String → ValidationAnswer) (now : ℕ) (signed : Bool) (ipn : Ipn)
    (a : Db) (v : Verdict) (b : Db) : Type 0 where
  ignored : v ≡ Verdict.invalid_ipn_signature → b ≡ a → Verified validate now signed ipn a v b
  denied :
      (g : GatewayResponse)
      → signed ≡ true
      → handle_failed_payment now ipn.tran_id g a ≡ ok (v, b)
      → Verified validate now signed ipn a v b
  confirmed :
      (w : String) (d : ValidationData)
      → ipn.val_id ≡ some w
      → validate w ≡ validated d
      → is_confirmed d ≡ true
      → handle_successful_payment now ipn.tran_id d a ≡ ok (v, b)
      → Verified validate now signed ipn a v b

module _ (validate : String → ValidationAnswer) (now : ℕ) (ipn : Ipn) (a : Db) {v : Verdict}
    {b : Db} where
  answered-cases :
      (signed : Bool) (w : String) (x : ValidationAnswer)
      → ipn.val_id ≡ some w
      → validate w ≡ x
      → act_on_answer now signed ipn x a ≡ ok (v, b)
      → Verified validate now signed ipn a v b
  unfolding act_on_answer
  answered-cases signed w no_validation n e h = cc
  answered-cases signed w (validated d) n e h = elim (Bool-cases (is_confirmed d)) [
    | inl i ↦ confirmed w d n e i (ground (arith, i, h))
    | inr i ↦ elim (Bool-cases signed) [
      | inl s ↦ denied (response_of d) s (ground (arith, i, s, h))
      | inr s ↦ ignored (ground (arith, i, s, h)) (ground (arith, i, s, h))
    ]
  ]

  rejected-cases :
      (signed : Bool)
      → (if signed
            then handle_failed_payment now ipn.tran_id (ipn_response ipn)
            else pure Verdict.invalid_ipn_signature)
          a
        ≡ ok (v, b)
      → Verified validate now signed ipn a v b
  rejected-cases true h = denied (ipn_response ipn) refl h
  rejected-cases false h = ignored (ground (arith, h)) (ground (arith, h))

  pub verify-cases :
      (signed : Bool)
      → verify_signed validate now signed ipn a ≡ ok (v, b)
      → Verified validate now signed ipn a v b
  unfolding verify_signed
  verify-cases signed h = elim (Option-cases ipn.val_id) [
    | inl n ↦ rejected-cases signed (ground (arith, n, h))
    | inr (w, n) ↦ elim (Bool-cases (says_valid ipn)) [
      | inl i ↦ answered-cases signed w (validate w) n refl (ground (arith, n, i, h))
      | inr i ↦ rejected-cases signed (ground (arith, n, i, h))
    ]
  ]

pub verify-Writes :
    {S : ℕ → Type 0} (validate : String → ValidationAnswer) (now : ℕ) (signed : Bool) (ipn : Ipn)
    (a : Db) {v : Verdict} {b : Db}
    → Keys a
    → verify_signed validate now signed ipn a ≡ ok (v, b)
    → Writes S a b
verify-Writes validate now signed ipn a k h = elim (verify-cases validate now ipn a signed h) [
  | ignored _ e ↦ nothing e
  | denied g s f ↦ failure-Writes now ipn.tran_id g a k f
  | Verified.confirmed w d n e i f ↦ success-Writes now ipn.tran_id d a k f
]
