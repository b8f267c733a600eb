-- ===== src/Payments/Settling.antt =====
-- What the two handlers of a notification may write: `handleSuccessfulPayment` and
-- `handleFailedPayment` of server/src/modules/payments/payments.service.ts.
use gramoz.Common.{
  ◌*◌, ◌/◌, ltb, ℕ, ◌≡◌, ◌≤◌, ◌<◌, ◌+◌, ◌⊎◌, refl, ap, ◌∙◌, String, Bool, true, false, Option, none,
  some, arith, Bool-cases, Option-cases, inl, inr, str_eq, str_eq_iff, if◌then◌else◌,
}
use gramoz.Table.{update}
use gramoz.Schema.{Db}
use gramoz.Schema.Enums.{OrderStatus, OrderPaymentStatus, PaymentStatus, order_status_eq}
use gramoz.Schema.Rows.{Order, Payment, GatewayResponse}
use gramoz.Tx.{ok}
use gramoz.Orders.Store.{order_id_is, find_order_by_id, create_outbox_event}
use gramoz.Payments.Store.{
  payment_id_is, with_response, with_payment_status, processing_and_paid, is_terminal,
  find_payment_by_transaction, update_order, update_payment,
}
use gramoz.Payments.Verify.{
  spacing, Verdict, ValidationData, is_confirmed, handle_successful_payment, handle_failed_payment,
  fail_existing, settle_failure, fail_payment, check_payment, settle_payment, complete_payment,
  mark_order_paid, order_is_cancelled, may_reset, wrong_amount, other_order, other_transaction,
  other_currency, response_of,
}
use gramoz.Payments.Writes.{is_completed, frees}

pub confirmed_status :
    (d : ValidationData)
    → is_confirmed d ≡ true
    → (d.status ≡ some "VALID") ⊎ (d.status ≡ some "VALIDATED")
unfolding is_confirmed
confirmed_status d h = elim (Option-cases d.status) [
  | inl n ↦ ground (arith, n, h)
  | inr (s, n) ↦ elim (Bool-cases (str_eq s "VALID")) [
    | inl y ↦ inl (n ∙ ap some ((str_eq_iff s "VALID").0 y))
    | inr y ↦ inr (n ∙ ap some ((str_eq_iff s "VALIDATED").0 (ground (arith, n, y, h))))
  ]
]

pub amount_of :
    (reported : Option ℕ) (e : ℕ)
    → wrong_amount reported e ≡ false
    → (n : ℕ) × (reported ≡ some n) × (0 < n) × (n ≤ e + 1) × (e ≤ n + 1)
unfolding wrong_amount
amount_of none e h = cc
amount_of (some n) e h = (n, refl, ground (arith, h), ground (arith, h), ground (arith, h))

-- `u` doubled `fuel` times.
abbrev reach : (fuel u : ℕ) → ℕ
reach ℕ.zero u = u
reach (ℕ.suc fuel) u = reach fuel (2 * u)

spacing_within :
    (fuel u q : ℕ)
    → q < 9_007_199_254_740_992 * reach fuel u
    → q < 9_007_199_254_740_992 * spacing fuel u q
unfolding spacing
spacing_within ℕ.zero u q h = h
spacing_within (ℕ.suc fuel) u q h =
    let rest = spacing_within fuel (2 * u) q h in
    elim (Bool-cases (ltb q (9_007_199_254_740_992 * u))) [
      | inl y ↦ ground (arith, y)
      | inr y ↦ ground (arith, y, rest)
    ]

-- The 64 rounds are enough for every amount of the columns, decimal(10, 2): 53 bits hold it.
spacing_fits :
    (n : ℕ)
    → n < 10_000_000_000
    → (let q = n * 576_460_752_303_423_488 / 100 in q < 9_007_199_254_740_992 * spacing 64 1 q)
spacing_fits n h = spacing_within 64 1 (n * 576_460_752_303_423_488 / 100) (omega arith)

-- The update of the order, by whether it is cancelled.
abbrev pub marked : Bool → Order → Order
marked true = with_payment_status OrderPaymentStatus.paid
marked false = processing_and_paid

pub marked_id : (c : Bool) (o : Order) → (marked c o).id ≡ o.id
marked_id true o = refl
marked_id false o = refl

pub marked-paid : (c : Bool) (o : Order) → (marked c o).payment_status ≡ OrderPaymentStatus.paid
marked-paid true o = refl
marked-paid false o = refl

pub marked_status :
    (c : Bool) (o : Order)
    → c ≡ order_status_eq o.status OrderStatus.cancelled
    → (marked c o).status ≡ (
        if order_status_eq o.status OrderStatus.cancelled
        then OrderStatus.cancelled
        else OrderStatus.processing)
marked_status true o h = ground (arith, h)
marked_status false o h = ground (arith, h)

-- The writes of a success.
pub record Completed (now : ℕ) (d : ValidationData) (p : Payment) (a b : Db) : Type 0 where
  pub amount : wrong_amount d.amount p.amount ≡ false
  pub before : is_completed p ≡ false
  pub orders :
      b.orders
      ≡ update
          (order_id_is p.order_id)
          (marked (order_is_cancelled (find_order_by_id p.order_id a)))
          a.orders
  pub payments :
      b.payments
      ≡ update
          (payment_id_is p.id)
          (with_response now PaymentStatus.completed (response_of d))
          a.payments

complete-cases :
    (now : ℕ) (t : String) (d : ValidationData) (p : Payment) (a : Db) {v : Verdict} {b : Db}
    → wrong_amount d.amount p.amount ≡ false
    → complete_payment now t (response_of d) (find_order_by_id p.order_id a) p a ≡ ok (v, b)
    → (b.orders ≡ a.orders) ⊎ Completed now d p a b
unfolding complete_payment mark_order_paid update_payment update_order create_outbox_event
complete-cases now t d p a w h = elim (Bool-cases (is_completed p)) [
  | inl i ↦ inl (ground (arith, i, h))
  | inr i ↦ elim (Bool-cases (order_is_cancelled (find_order_by_id p.order_id a))) [
    | inl j ↦ inr (record {
      amount = w;
      before = i;
      orders = ground (arith, i, j, h);
      payments = ground (arith, i, j, h);
    })
    | inr j ↦ inr (record {
      amount = w;
      before = i;
      orders = ground (arith, i, j, h);
      payments = ground (arith, i, j, h);
    })
  ]
]

checked-cases :
    (now : ℕ) (t : String) (d : ValidationData) (p : Payment) (a : Db) {v : Verdict} {b : Db}
    → find_payment_by_transaction t a ≡ some p
    → check_payment now t d p a ≡ ok (v, b)
    → (b.orders ≡ a.orders) ⊎ Completed now d p a b
unfolding check_payment settle_payment
checked-cases now t d p a {v} {b} n h = elim (Bool-cases (wrong_amount d.amount p.amount)) [
  | inl i ↦ inl (ground (arith, i, h))
  | inr i ↦ elim (Bool-cases (other_order d.value_a p.order_id)) [
    | inl j ↦ inl (ground (arith, i, j, h))
    | inr j ↦
        let done : complete_payment now t (response_of d) (find_order_by_id p.order_id a) p a
            ≡ ok (v, b) =
          ground (arith, n, i, j, h) in
        complete-cases now t d p a i done
  ]
]

-- A success leaves the orders alone, or completes the payment of the transaction.
pub success-cases :
    (now : ℕ) (tran : Option String) (d : ValidationData) (a : Db) {v : Verdict} {b : Db}
    → handle_successful_payment now tran d a ≡ ok (v, b)
    → (b.orders ≡ a.orders)
      ⊎ ((t : String) × (p : Payment) × (tran ≡ some t)
          × (find_payment_by_transaction t a ≡ some p)
          × Completed now d p a b)
unfolding handle_successful_payment
success-cases now none d a h = inl (ground (arith, h))
success-cases now (some t) d a {v} {b} h = elim (Bool-cases (other_transaction t d.tran_id)) [
  | inl i ↦ inl (ground (arith, i, h))
  | inr i ↦ elim (Bool-cases (other_currency d)) [
    | inl j ↦ inl (ground (arith, i, j, h))
    | inr j ↦ elim (Option-cases (find_payment_by_transaction t a)) [
      | inl n ↦ inl (ground (arith, i, j, n, h))
      | inr (p, n) ↦
          let done : check_payment now t d p a ≡ ok (v, b) = ground (arith, i, j, n, h) in
          elim (checked-cases now t d p a n done) [
            | inl same ↦ inl same
            | inr c ↦ inr (t, p, refl, n, c)
          ]
    ]
  ]
]

failed-cases :
    (now : ℕ) (g : GatewayResponse) (o : Option Order) (p : Payment) (a : Db) {v : Verdict} {b : Db}
    → fail_payment now g o p a ≡ ok (v, b)
    → (b.orders ≡ a.orders) ⊎ (b.orders ≡ update (order_id_is p.order_id) frees a.orders)
unfolding fail_payment update_payment update_order
failed-cases now g o p a h = elim (Bool-cases (is_terminal p.status)) [
  | inl i ↦ inl (ground (arith, i, h))
  | inr i ↦ elim (Bool-cases (may_reset o)) [
    | inl j ↦ inr (ground (arith, i, j, h))
    | inr j ↦ inl (ground (arith, i, j, h))
  ]
]

-- A failure leaves the orders alone, or takes the payment status of one back.
pub failure-cases :
    (now : ℕ) (tran : Option String) (g : GatewayResponse) (a : Db) {v : Verdict} {b : Db}
    → handle_failed_payment now tran g a ≡ ok (v, b)
    → (b.orders ≡ a.orders) ⊎ ((j : ℕ) × (b.orders ≡ update (order_id_is j) frees a.orders))
unfolding handle_failed_payment fail_existing settle_failure
failure-cases now none g a h = inl (ground (arith, h))
failure-cases now (some t) g a {v} {b} h = elim (Option-cases (find_payment_by_transaction t a)) [
  | inl n ↦ inl (ground (arith, n, h))
  | inr (p, n) ↦
      let done : fail_payment now g (find_order_by_id p.order_id a) p a ≡ ok (v, b) =
        ground (arith, n, h) in
      elim (failed-cases now g (find_order_by_id p.order_id a) p a done) [
        | inl same ↦ inl same
        | inr w ↦ inr (p.order_id, w)
      ]
]
