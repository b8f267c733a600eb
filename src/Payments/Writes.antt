-- ===== src/Payments/Writes.antt =====
-- What the payment service writes to the orders and the payments, in kinds.
use gramoz.Common.{
  ℕ, ◌≡◌, refl, subst, Bool, true, false, not, ◌&&◌, none, some, List, [], ◌∷◌, arith, ◌==◌,
  if◌then◌else◌, Bool-cases, Option-cases, inl, inr, leb,
}
use mathlib.Core.List.{Memᴰ}
use gramoz.Table.{find, select, update, exists}
use gramoz.Table.Unique.{UniqueBy, Single}
use gramoz.Table.Update.{select-Memᴰ, find_Memᴰ}
use gramoz.Schema.{Db}
use gramoz.Schema.Enums.{OrderPaymentStatus, PaymentStatus, payment_status_eq, payment_is_pending}
use gramoz.Schema.Rows.{Order, Payment}
use gramoz.Orders.Store.{order_id_is, find_order_by_id}
use gramoz.Payments.Store.{
  payment_id_is, transaction_is, with_payment_status, is_terminal, latest, later,
  find_latest_payment, find_latest_pending_payment,
}
use gramoz.Payments.Cod.{non_retryable}

abbrev pub same_payment : Payment → Payment → Bool
same_payment x y = x.id == y.id

abbrev pub same_transaction : Payment → Payment → Bool
same_transaction x y = elim x.transaction_id [ none ↦ false | some t ↦ transaction_is t y ]

abbrev pub is_completed : Payment → Bool
is_completed p = payment_status_eq p.status PaymentStatus.completed

abbrev pub refunded_for : (order : ℕ) → Payment → Bool
refunded_for order p = p.order_id == order && payment_status_eq p.status PaymentStatus.refunded

abbrev pub settled_for : (order : ℕ) → Payment → Bool
settled_for order p = p.order_id == order && is_completed p

abbrev pub pending_for : (order : ℕ) → Payment → Bool
pending_for order p = p.order_id == order && payment_is_pending p.status

-- Two pending payments of an order.
abbrev pub rivals : (order : ℕ) → Payment → Payment → Bool
rivals order x y = pending_for order x && pending_for order y

-- The order may be paid for (again).
abbrev pub is_retryable : Order → Bool
is_retryable o = not (non_retryable o.payment_status)

-- An update of a payment that gives it a status.
abbrev pub Marks : PaymentStatus → (Payment → Payment) → Type 0
Marks s f =
    (x : Payment)
    → ((f x).id ≡ x.id)
      × ((f x).order_id ≡ x.order_id)
      × ((f x).transaction_id ≡ x.transaction_id)
      × ((f x).status ≡ s)

abbrev pub initiates : Order → Order
initiates = with_payment_status OrderPaymentStatus.initiated

abbrev pub frees : Order → Order
frees = with_payment_status OrderPaymentStatus.unpaid

-- A new row beside those of the table.
pub record IsNew (q : Payment) (o : Order) (a : Db) : Type 0 where
  pub of_order : q.order_id ≡ o.id
  pub pending : q.status ≡ PaymentStatus.pending
  pub fresh : exists (same_payment q) a.payments ≡ false
  pub untaken : exists (same_transaction q) a.payments ≡ false

-- A write. Where `S` holds of an order, a payment is opened for it only beside no pending one.
pub data Write (S : ℕ → Type 0) (a b : Db) : Type 0 where
  opened :
      (o : Order) (q : Payment)
      → find_order_by_id o.id a ≡ some o
      → (S o.id → exists (pending_for o.id) a.payments ≡ false)
      → IsNew q o a
      → b.orders ≡ update (order_id_is o.id) initiates a.orders
      → b.payments ≡ q ∷ a.payments
      → Write S a b
  failed :
      (p : Payment) (f : Payment → Payment) (reset : Bool)
      → find (payment_id_is p.id) a.payments ≡ some p
      → is_terminal p.status ≡ false
      → Marks PaymentStatus.failed f
      → b.orders ≡ (if reset then update (order_id_is p.order_id) frees a.orders else a.orders)
      → b.payments ≡ update (payment_id_is p.id) f a.payments
      → Write S a b
  completed :
      (p : Payment) (f : Payment → Payment) (g : Order → Order)
      → find (payment_id_is p.id) a.payments ≡ some p
      → is_completed p ≡ false
      → Marks PaymentStatus.completed f
      → ((o : Order) → ((g o).id ≡ o.id) × ((g o).payment_status ≡ OrderPaymentStatus.paid))
      → b.orders ≡ update (order_id_is p.order_id) g a.orders
      → b.payments ≡ update (payment_id_is p.id) f a.payments
      → Write S a b

pub data Writes (S : ℕ → Type 0) : Db → Db → Type 0 where
  nothing : {a b : Db} → b ≡ a → Writes S a b
  more : {a m b : Db} → Write S a m → Writes S m b → Writes S a b

pub one : {S : ℕ → Type 0} {a b : Db} → Write S a b → Writes S a b
one w = more w (nothing refl)

pub Writes-trans : {S : ℕ → Type 0} {a m b : Db} → Writes S a m → Writes S m b → Writes S a b
Writes-trans {S = S} {b = b} (nothing e) ws = subst (λ d. Writes S d b) e ws
Writes-trans (more w vs) ws = more w (Writes-trans vs ws)

-- The unique indexes of the table.
pub record Keys (a : Db) : Type 0 where
  pub ids : UniqueBy same_payment a.payments
  pub transactions : UniqueBy same_transaction a.payments

latest-Memᴰ : (ps : List Payment) {p : Payment} → latest ps ≡ some p → Memᴰ p ps
unfolding latest later
latest-Memᴰ [] e = cc
latest-Memᴰ (x ∷ ps) {p} e = elim (Option-cases (latest ps)) [
  | inl n ↦ Memᴰ.head (ground (arith, n, e))
  | inr (q, n) ↦ elim (Bool-cases (leb q.created_at x.created_at)) [
    | inl y ↦ Memᴰ.head (ground (arith, n, e, y))
    | inr y ↦ Memᴰ.tail (latest-Memᴰ ps (ground (arith, n, e, y)))
  ]
]

pub id_Single : (id : ℕ) → Single same_payment (payment_id_is id)
id_Single id x y h k = ground (arith, h, k)

-- The latest payment of an order is the row of its id.
pub latest-found :
    (a : Db) (order : ℕ) {p : Payment}
    → UniqueBy same_payment a.payments
    → find_latest_payment order a ≡ some p
    → (find (payment_id_is p.id) a.payments ≡ some p) × ((p.order_id == order) ≡ true)
unfolding find_latest_payment
latest-found a order {p} u e =
    let (m, c) = select-Memᴰ (λ x. x.order_id == order) a.payments (latest-Memᴰ _ e) in
    (find_Memᴰ same_payment (payment_id_is p.id) a.payments (id_Single p.id) u m (ground arith), c)

pub latest_pending-found :
    (a : Db) (order : ℕ) {p : Payment}
    → UniqueBy same_payment a.payments
    → find_latest_pending_payment order a ≡ some p
    → (find (payment_id_is p.id) a.payments ≡ some p) × (pending_for order p ≡ true)
unfolding find_latest_pending_payment
latest_pending-found a order {p} u e =
    let (m, c) = select-Memᴰ (pending_for order) a.payments (latest-Memᴰ _ e) in
    (find_Memᴰ same_payment (payment_id_is p.id) a.payments (id_Single p.id) u m (ground arith), c)

latest-none :
    (c : Payment → Bool) (ps : List Payment) → latest (select c ps) ≡ none → exists c ps ≡ false
unfolding latest later
latest-none c [] e = refl
latest-none c (x ∷ ps) e = ground (arith, e, latest-none c ps)

pub latest_pending-none :
    (a : Db) (order : ℕ)
    → find_latest_pending_payment order a ≡ none
    → exists (pending_for order) a.payments ≡ false
unfolding find_latest_pending_payment
latest_pending-none a order e = latest-none (pending_for order) a.payments e
