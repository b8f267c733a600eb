-- ===== src/Payments/Settled.antt =====
-- A payment that a notification settles, on the rows: `handleSuccessfulPayment` of
-- server/src/modules/payments/payments.service.ts.
use gramoz.Common.{
  ℕ, ◌≡◌, ◌≢◌, ◌≤◌, ◌<◌, ◌+◌, ◌⊎◌, refl, ap, ◌∙◌, String, true, false, some, arith, Bool-cases, inl,
  inr, ◌==◌, if◌then◌else◌,
}
use gramoz.Table.{find, update}
use gramoz.Table.Laws.{find_sound, find-update}
use gramoz.Table.Unique.{find-update_apart}
use gramoz.Schema.{Db}
use gramoz.Schema.Enums.{OrderStatus, OrderPaymentStatus, PaymentStatus, order_status_eq}
use gramoz.Schema.Rows.{Order, Payment}
use gramoz.Orders.Store.{order_id_is, find_order_by_id}
use gramoz.Payments.Store.{
  payment_id_is, transaction_is, with_response, find_payment_by_id, find_payment_by_transaction,
}
use gramoz.Payments.Signature.{Ipn}
use gramoz.Payments.Verify.{
  ValidationData, ValidationAnswer, validated, is_confirmed, order_is_cancelled, response_of,
}
use gramoz.Payments.Writes.{frees}
use gramoz.Payments.Sound.{not_paid}
use gramoz.Payments.Settling.{
  Completed, confirmed_status, amount_of, marked, marked_id, marked-paid, marked_status,
}

-- What a notification that makes an order paid went through, and what it wrote.
pub record Settled (ipn : Ipn) (validate : String → ValidationAnswer) (k : ℕ) (x : Order) (a b : Db)
    : Type 0 where
  pub tran : String
  pub val_id : String
  pub validation : ValidationData
  pub payment : Payment
  pub asked : (ipn.val_id ≡ some val_id) × (validate val_id ≡ validated validation)
  pub confirmed : (validation.status ≡ some "VALID") ⊎ (validation.status ≡ some "VALIDATED")
  pub named : (ipn.tran_id ≡ some tran) × (find_payment_by_transaction tran a ≡ some payment)
  pub own : payment.order_id ≡ k
  pub before : payment.status ≢ PaymentStatus.completed
  pub amount :
      (n : ℕ) × (validation.amount ≡ some n)
      × (0 < n)
      × (n ≤ payment.amount + 1)
      × (payment.amount ≤ n + 1)
  pub payment_row :
      (p : Payment) × (find_payment_by_transaction tran b ≡ some p)
      × (p.id ≡ payment.id)
      × (p.status ≡ PaymentStatus.completed)
  pub order_row :
      (y : Order) × (find_order_by_id k b ≡ some y)
      × (y.payment_status ≡ OrderPaymentStatus.paid)
      × (y.status ≡ (
          if order_status_eq x.status OrderStatus.cancelled
          then OrderStatus.cancelled
          else OrderStatus.processing))
  pub other_orders : (j : ℕ) → (k == j) ≡ false → find_order_by_id j b ≡ find_order_by_id j a
  pub other_payments :
      (j : ℕ) → (payment.id == j) ≡ false → find_payment_by_id j b ≡ find_payment_by_id j a

module _ (ipn : Ipn) (validate : String → ValidationAnswer) (k : ℕ) (x : Order) (a b : Db)
    (there : find_order_by_id k a ≡ some x) where
  -- The two writes, on the rows.
  pub settled :
      (now : ℕ) (t w : String) (d : ValidationData) (p : Payment)
      → (ipn.val_id ≡ some w) × (validate w ≡ validated d) × (is_confirmed d ≡ true)
      → (ipn.tran_id ≡ some t) × (find_payment_by_transaction t a ≡ some p)
      → p.order_id ≡ k
      → Completed now d p a b
      → Settled ipn validate k x a b
  settled now t w d p (v, e, c) (n, m) own s =
      let g = marked (order_is_cancelled (find_order_by_id p.order_id a)) in
      let key : order_id_is p.order_id x ≡ true =
        ap (λ i. order_id_is i x) own ∙ find_sound (order_id_is k) a.orders there in
      let known : order_is_cancelled (find_order_by_id p.order_id a)
          ≡ order_status_eq x.status OrderStatus.cancelled =
        ap (λ i. order_is_cancelled (find_order_by_id i a)) own ∙ ap order_is_cancelled there in
      record {
        tran = t;
        val_id = w;
        validation = d;
        payment = p;
        asked = (v, e);
        confirmed = confirmed_status d c;
        named = (n, m);
        own = own;
        before = λ i. ground (arith, i, s.before);
        amount = amount_of d.amount p.amount s.amount;
        payment_row = (
          with_response now PaymentStatus.completed (response_of d) p,
          ap (find (transaction_is t)) s.payments
              ∙ find-update (transaction_is t) (payment_id_is p.id)
                  (with_response now PaymentStatus.completed (response_of d)) a.payments (λ y. refl)
                  m (ground arith),
          refl,
          refl,
        );
        order_row = (
          g x,
          ap (find (order_id_is k)) s.orders
              ∙ find-update (order_id_is k) (order_id_is p.order_id) g a.orders
                  (λ y. ap (λ i. i == k) (marked_id _ y)) there key,
          marked-paid _ x,
          marked_status _ x known,
        );
        other_orders = λ j apart.
            ap (find (order_id_is j)) s.orders
            ∙ find-update_apart (order_id_is j) (order_id_is p.order_id) g a.orders
                (λ y. ap (λ i. i == j) (marked_id _ y)) (λ y h. ground (arith, h, own, apart));
        other_payments = λ j apart.
            ap (find (payment_id_is j)) s.payments
            ∙ find-update_apart (payment_id_is j) (payment_id_is p.id)
                (with_response now PaymentStatus.completed (response_of d)) a.payments (λ y. refl)
                (λ y h. ground (arith, h, apart));
      }

pub unpaid_still :
    (k : ℕ) (x y : Order) (a b : Db)
    → find_order_by_id k a ≡ some x
    → x.payment_status ≢ OrderPaymentStatus.paid
    → find_order_by_id k b ≡ some y
    → y.payment_status ≡ OrderPaymentStatus.paid
    → b.orders ≢ a.orders
unpaid_still k x y a b there n after paid e =
    let same : x ≡ y = ground (arith, there, after, ap (find (order_id_is k)) e) in
    n (ap (λ o. o.payment_status) same ∙ paid)

pub not_freed :
    (k : ℕ) (x y : Order) (a b : Db)
    → find_order_by_id k a ≡ some x
    → x.payment_status ≢ OrderPaymentStatus.paid
    → find_order_by_id k b ≡ some y
    → y.payment_status ≡ OrderPaymentStatus.paid
    → (j : ℕ) → b.orders ≢ update (order_id_is j) frees a.orders
not_freed k x y a b there n after paid j e =
    let (z, f, was) = not_paid k j frees a b (λ o. refl) (λ o i. cc) e after paid in
    let same : x ≡ z = ground (arith, there, f) in n (ap (λ o. o.payment_status) same ∙ was)

-- The order of a completed payment is the one that has become paid.
pub settled_order :
    (now k : ℕ) (d : ValidationData) (p : Payment) (x y : Order) (a b : Db)
    → Completed now d p a b
    → find_order_by_id k a ≡ some x
    → x.payment_status ≢ OrderPaymentStatus.paid
    → find_order_by_id k b ≡ some y
    → y.payment_status ≡ OrderPaymentStatus.paid
    → p.order_id ≡ k
settled_order now k d p x y a b c there n after paid =
    let g = marked (order_is_cancelled (find_order_by_id p.order_id a)) in
    elim (Bool-cases (p.order_id == k)) [
      | inl hit ↦ ground (arith, hit)
      | inr miss ↦
          let same : find_order_by_id k b ≡ find_order_by_id k a =
            ap (find (order_id_is k)) c.orders
            ∙ find-update_apart (order_id_is k) (order_id_is p.order_id) g a.orders
                (λ o. ap (λ i. i == k) (marked_id _ o)) (λ o h. ground (arith, h, miss)) in
          let own : x ≡ y = ground (arith, there, after, same) in
          absurd (n (ap (λ o. o.payment_status) own ∙ paid))
    ]
