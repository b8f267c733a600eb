-- ===== src/Payments/Sessions.antt =====
-- Runs of the payment service: server/src/modules/payments/payments.service.ts.
use gramoz.Common.{
  ℕ, ◌≡◌, ◌≤◌, refl, subst, false, String, Bool, true, ◌&&◌, some, List, [], ◌∷◌, length, arith,
  ◌==◌, Bool-cases, inl, inr, if◌then◌else◌,
}
use gramoz.Table.{select, exists}
use gramoz.Table.Unique.{UniqueBy, exists_weaken}
use gramoz.Table.Laws.{select-none}
use gramoz.Schema.{Db}
use gramoz.Schema.Enums.{OrderPaymentStatus}
use gramoz.Schema.Rows.{Order, Payment}
use gramoz.Tx.{Result, run_transaction}
use gramoz.Tx.Calls.{run-inv}
use gramoz.Orders.Store.{find_order_by_id}
use gramoz.Payments.Signature.{Ipn, validate_ipn_signature}
use gramoz.Payments.Initiate.{SessionRequest, SessionAnswer, Initiated, initiate_payment}
use gramoz.Payments.Verify.{ValidationAnswer, Verdict, verify_payment}
use gramoz.Payments.Callbacks.{handle_fail_callback, handle_cancel_callback}
use gramoz.Payments.Writes.{
  Writes, Writes-trans, Keys, nothing, is_completed, settled_for, pending_for, is_retryable, rivals,
}
use gramoz.Payments.Sound.{Sound, Tidy, Calm}
use gramoz.Payments.Kept.{Writes-Keys, Writes-Backed, Writes-Calm, Writes-completed}
use gramoz.Payments.Opening.{Unused}
use gramoz.Payments.Initiating.{initiate-Writes}
use gramoz.Payments.Answering.{verify-Writes}
use gramoz.Payments.Returning.{fail_callback-Writes, cancel_callback-Writes}

-- A call of the service, whatever comes of it and whatever the gateway answers. A call is one step,
-- also `initiatePayment`, which commits several transactions around its request to the gateway.
pub data PaymentStep (a b : Db) : Type 0 where
  initiates :
      (gateway : SessionRequest → SessionAnswer) (now id : ℕ) (tran requested : String)
      (user order : ℕ) (r : Result Initiated)
      → Unused id a
      → initiate_payment gateway now id tran requested user order a ≡ (r, b)
      → PaymentStep a b
  notifies :
      (sha256 md5 : String → String) (store_passwd : String) (validate : String → ValidationAnswer)
      (now : ℕ) (ipn : Ipn) (r : Result Verdict)
      → run_transaction (verify_payment sha256 md5 store_passwd validate now ipn) a ≡ (r, b)
      → PaymentStep a b
  fails :
      (now : ℕ) (body : Ipn) (r : Result (Unit {0}))
      → run_transaction (handle_fail_callback now body) a ≡ (r, b)
      → PaymentStep a b
  cancels :
      (now : ℕ) (body : Ipn) (r : Result (Unit {0}))
      → run_transaction (handle_cancel_callback now body) a ≡ (r, b)
      → PaymentStep a b

pub data PaymentRun : Db → Db → Type 0 where
  done : {a : Db} → PaymentRun a a
  next : {a b c : Db} → PaymentStep a b → PaymentRun b c → PaymentRun a c

module _ {S : ℕ → Type 0} where
  step-Writes : (a b : Db) → Keys a → Calm S a → PaymentStep a b → Writes S a b
  unfolding verify_payment
  step-Writes a b k x (initiates gateway now id tran requested user order r n h) =
      initiate-Writes gateway now id tran requested user order a k x n h
  step-Writes a b k x (notifies sha256 md5 store_passwd validate now ipn r h) =
      elim (run-inv (verify_payment sha256 md5 store_passwd validate now ipn) a h) [
        | inl (v, _, e) ↦
            verify-Writes validate now (validate_ipn_signature sha256 md5 store_passwd ipn) ipn a k
              e
        | inr (same, _) ↦ nothing same
      ]
  step-Writes a b k x (fails now body r h) = elim (run-inv (handle_fail_callback now body) a h) [
    | inl (tt, _, e) ↦ fail_callback-Writes now body a k e
    | inr (same, _) ↦ nothing same
  ]
  step-Writes a b k x (cancels now body r h) =
      elim (run-inv (handle_cancel_callback now body) a h) [
        | inl (tt, _, e) ↦ cancel_callback-Writes now body a k e
        | inr (same, _) ↦ nothing same
      ]

  run-Writes : (a b : Db) → Keys a → Calm S a → PaymentRun a b → Writes S a b
  run-Writes a b k x done = nothing refl
  run-Writes a b k x (next {b = m} s r) =
      let ws = step-Writes a m k x s in
      Writes-trans ws (run-Writes m b (Writes-Keys a m k ws) (Writes-Calm a m k x ws) r)

-- Of no order.
abbrev Nowhere : ℕ → Type 0
Nowhere k = true ≡ false

any-Calm : (a : Db) → Calm Nowhere a
any-Calm a k h = cc

-- Over any run of the service from a state whose unique indexes hold and whose paid orders have
-- completed payments, an order that is marked as paid has a completed payment. Each call is one
-- step: none runs between the transactions of another.
pub paid_is_backed :
    (a b : Db) (k : ℕ) (o : Order)
    → Sound a
    → PaymentRun a b
    → find_order_by_id k b ≡ some o
    → o.payment_status ≡ OrderPaymentStatus.paid
    → exists (settled_for k) b.payments ≡ true
paid_is_backed a b k o x r there h =
    Writes-Backed a b x.keys x.backed (run-Writes a b x.keys (any-Calm a) r) k o there h

abbrev pub completed_row : ℕ → Payment → Bool
completed_row i p = p.id == i && is_completed p

-- Over any run of the service from a state whose unique indexes hold, a payment that is completed
-- stays completed, as long as each call is one step: no call runs between the transactions of
-- another. An `initiatePayment` whose session is completed between its own check and its own
-- cancellation is outside of this.
pub completed_is_final :
    (a b : Db) (i : ℕ)
    → Keys a
    → PaymentRun a b
    → exists (completed_row i) a.payments ≡ true
    → exists (completed_row i) b.payments ≡ true
completed_is_final a b i x r h =
    Writes-completed (completed_row i) a b (λ y e. ground arith) x (run-Writes a b x (any-Calm a) r)
      h

at_most_one :
    (k : ℕ) (ps : List Payment) → UniqueBy (rivals k) ps → length (select (pending_for k) ps) ≤ 1
at_most_one k [] u = ground arith
at_most_one k (p ∷ ps) u = elim (Bool-cases (pending_for k p)) [
  | inl y ↦
      let rest : select (pending_for k) ps ≡ [] =
        select-none (pending_for k) ps
          (exists_weaken (pending_for k) (rivals k p) ps (λ q e. ground (arith, y, e)) u.0) in
      ground (arith, y, rest)
  | inr y ↦ ground (arith, y, at_most_one k ps u.1)
]

-- Over any run of the service from a state whose unique indexes hold, and in which the order has no
-- refunded payment, at most one pending payment, and none while it may be paid for, the order has
-- at most one pending payment, and none while its payment status lets it be paid for again. Each
-- call is one step: none runs between the transactions of another. An order with a refunded
-- payment is left out.
pub one_live_session :
    (a b : Db) (k : ℕ) (o : Order)
    → Keys a
    → Tidy k a
    → PaymentRun a b
    → find_order_by_id k b ≡ some o
    → length (select (pending_for k) b.payments) ≤ (if is_retryable o then 0 else 1)
one_live_session a b k o keys x r there =
    let calm : Calm (λ j. k ≡ j) a = λ j e. subst (λ i. Tidy i a) e x in
    let y = Writes-Calm a b keys calm (run-Writes a b keys calm r) k refl in
    elim (Bool-cases (is_retryable o)) [
      | inl i ↦
          let empty : select (pending_for k) b.payments ≡ [] =
            select-none (pending_for k) b.payments (y.idle o there i) in
          ground (arith, i, empty)
      | inr i ↦ ground (arith, i, at_most_one k b.payments y.sole)
    ]
