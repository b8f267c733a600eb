-- ===== src/Payments/Sound.antt =====
-- The state that the payment service keeps: the unique indexes, orders that are paid, and the
-- sessions that are open.
use gramoz.Common.{
  ℕ, ◌≡◌, refl, ap, sym, ◌∙◌, subst, Bool, true, false, some, List, arith, ◌==◌, if◌then◌else◌,
  Bool-cases, inl, inr,
}
use gramoz.Table.{find, update, exists}
use gramoz.Table.Unique.{UniqueBy, Single, update-UniqueBy, find_unique}
use gramoz.Table.Update.{
  update-UniqueBy_le, update_creates_none, exists-update_gone, exists-update_other, find-update_inv,
}
use gramoz.Schema.{Db}
use gramoz.Schema.Enums.{OrderPaymentStatus, PaymentStatus, payment_status_eq, payment_is_pending}
use gramoz.Schema.Rows.{Order, Payment}
use gramoz.Orders.Store.{order_id_is, find_order_by_id}
use gramoz.Payments.Store.{payment_id_is}
use gramoz.Payments.Writes.{
  same_payment, same_transaction, is_completed, refunded_for, settled_for, pending_for, rivals,
  is_retryable, Marks, frees, Keys, id_Single,
}

-- Every paid order has a completed payment.
abbrev pub Backed : Db → Type 0
Backed a =
    (k : ℕ) (o : Order)
    → find_order_by_id k a ≡ some o
    → o.payment_status ≡ OrderPaymentStatus.paid
    → exists (settled_for k) a.payments ≡ true

-- While the order may be paid for, it has no payment in progress.
abbrev pub Idle : ℕ → Db → Type 0
Idle k a =
    (o : Order)
    → find_order_by_id k a ≡ some o
    → is_retryable o ≡ true
    → exists (pending_for k) a.payments ≡ false

-- The unique indexes hold, and every paid order has a completed payment.
pub record Sound (a : Db) : Type 0 where
  pub keys : Keys a
  pub backed : Backed a

-- Of order `k` no payment is refunded, at most one is pending, and none while it may be paid for.
pub record Tidy (k : ℕ) (a : Db) : Type 0 where
  pub none_refunded : exists (refunded_for k) a.payments ≡ false
  pub sole : UniqueBy (rivals k) a.payments
  pub idle : Idle k a

-- The orders that `S` holds of are tidy.
abbrev pub Calm : (ℕ → Type 0) → Db → Type 0
Calm S a = (k : ℕ) → S k → Tidy k a

module _ (s : PaymentStatus) (f : Payment → Payment) (m : Marks s f) (q : Payment → Bool) where
  mark_ids : (ps : List Payment) → UniqueBy same_payment ps → UniqueBy same_payment (update q f ps)
  mark_ids ps =
      update-UniqueBy same_payment q f ps (λ x y. ap (λ i. i == y.id) (m x).0)
        (λ x y. ap (λ i. x.id == i) (m y).0)

  mark_transactions :
      (ps : List Payment) → UniqueBy same_transaction ps → UniqueBy same_transaction (update q f ps)
  mark_transactions ps =
      update-UniqueBy same_transaction q f ps (λ x y. ground (arith, (m x).2))
        (λ x y. ground (arith, (m y).2))

  pub mark-Keys : (a b : Db) → Keys a → b.payments ≡ update q f a.payments → Keys b
  mark-Keys a b k e = record {
    ids = subst (UniqueBy same_payment) (sym e) (mark_ids a.payments k.ids);
    transactions =
        subst (UniqueBy same_transaction) (sym e) (mark_transactions a.payments k.transactions);
  }

  pub mark_sole :
      payment_is_pending s ≡ false
      → (k : ℕ) (ps : List Payment) → UniqueBy (rivals k) ps
      → UniqueBy (rivals k) (update q f ps)
  mark_sole n k ps =
      update-UniqueBy_le (rivals k) q f ps (λ x y h. ground (arith, (m x).3, n, h))
        (λ x y h. ground (arith, (m y).3, n, h))

  pub mark_none_refunded :
      payment_status_eq s PaymentStatus.refunded ≡ false
      → (k : ℕ) (ps : List Payment) → exists (refunded_for k) ps ≡ false
      → exists (refunded_for k) (update q f ps) ≡ false
  mark_none_refunded n k ps =
      update_creates_none (refunded_for k) q f ps (λ x. ground (arith, (m x).3, n))

  pub mark_idle :
      payment_is_pending s ≡ false
      → (k : ℕ) (ps : List Payment) → exists (pending_for k) ps ≡ false
      → exists (pending_for k) (update q f ps) ≡ false
  mark_idle n k ps = update_creates_none (pending_for k) q f ps (λ x. ground (arith, (m x).3, n))

-- The one pending payment of an order, no longer pending.
module _ (s : PaymentStatus) (f : Payment → Payment) (m : Marks s f)
    (n : payment_is_pending s ≡ false) where
  pub sole_gone :
      (k : ℕ) (ps : List Payment) (p : Payment)
      → UniqueBy (rivals k) ps
      → find (payment_id_is p.id) ps ≡ some p
      → pending_for k p ≡ true
      → exists (pending_for k) (update (payment_id_is p.id) f ps) ≡ false
  sole_gone k ps p u e h =
      exists-update_gone (rivals k) (pending_for k) (payment_id_is p.id) f ps (pending_Single k) u
        (find_unique (rivals k) (pending_for k) (payment_id_is p.id) ps (pending_Single k) u e h)
        (ground arith) (λ x. ground (arith, (m x).3, n))
    where
      pending_Single : (k : ℕ) → Single (rivals k) (pending_for k)
      pending_Single k x y i j = ground (arith, i, j)

-- Completed payments stay so when another is marked.
pub kept :
    (c : Payment → Bool) (f : Payment → Payment) (a b : Db) (p : Payment)
    → ((y : Payment) → c y ≡ true → is_completed y ≡ true)
    → Keys a
    → find (payment_id_is p.id) a.payments ≡ some p
    → is_completed p ≡ false
    → b.payments ≡ update (payment_id_is p.id) f a.payments
    → exists c a.payments ≡ true
    → exists c b.payments ≡ true
kept c f a b p k u e n w h =
    ap (λ r. exists c r) w
    ∙ exists-update_other same_payment c (payment_id_is p.id) f a.payments (id_Single p.id) u.ids e
        (elim (Bool-cases (c p)) [ inl y ↦ ground (arith, k p y, n) | inr y ↦ y ]) h

pub settled_is_completed : (k : ℕ) (y : Payment) → settled_for k y ≡ true → is_completed y ≡ true
settled_is_completed k y h = ground arith

-- An order found after an update of the orders.
pub found_before :
    (k j : ℕ) (g : Order → Order) (a b : Db) {o : Order}
    → ((x : Order) → (g x).id ≡ x.id)
    → b.orders ≡ update (order_id_is j) g a.orders
    → find_order_by_id k b ≡ some o
    → (x : Order) × (find_order_by_id k a ≡ some x) × (o ≡ (if x.id == j then g x else x))
found_before k j g a b m w e =
    find-update_inv (order_id_is k) (order_id_is j) g a.orders (λ x. ap (λ i. i == k) (m x))
      (ap (find (order_id_is k)) (sym w) ∙ e)

-- An order that an update left out of those that are paid.
pub not_paid :
    (k j : ℕ) (g : Order → Order) (a b : Db)
    → ((x : Order) → (g x).id ≡ x.id)
    → ((x : Order)
        → (g x).payment_status ≡ OrderPaymentStatus.paid
        → x.payment_status ≡ OrderPaymentStatus.paid)
    → b.orders ≡ update (order_id_is j) g a.orders
    → {o : Order} → find_order_by_id k b ≡ some o
    → o.payment_status ≡ OrderPaymentStatus.paid
    → (x : Order) × (find_order_by_id k a ≡ some x) × (x.payment_status ≡ OrderPaymentStatus.paid)
not_paid k j g a b m n w {o} e h =
    let (x, there, same) = found_before k j g a b m w e in
    elim (Bool-cases (x.id == j)) [
      | inl y ↦ (x, there, n x (ground (arith, y, same, h)))
      | inr y ↦ (x, there, ground (arith, y, same, h))
    ]

pub frees-Backed :
    (a b : Db) (j : ℕ) (r : Bool)
    → b.orders ≡ (if r then update (order_id_is j) frees a.orders else a.orders)
    → Backed a
    → (k : ℕ) (o : Order) → find_order_by_id k b ≡ some o
    → o.payment_status ≡ OrderPaymentStatus.paid
    → exists (settled_for k) a.payments ≡ true
frees-Backed a b j true w u k o e h =
    let (x, there, p) = not_paid k j frees a b (λ x. refl) (λ x i. cc) w e h in u k x there p
frees-Backed a b j false w u k o e h = u k o (ap (find (order_id_is k)) (sym w) ∙ e) h
