-- ===== src/Payments/Returning.antt =====
-- The writes of the fail and cancel callbacks.
use gramoz.Common.{
  ℕ, ◌≡◌, refl, sym, ◌∙◌, String, true, false, Option, none, some, arith, Bool-cases, Option-cases,
  inl, inr, str_eq, str_eq_iff,
}
use gramoz.Table.{find}
use gramoz.Table.Unique.{Single, find_unique}
use gramoz.Schema.{Db}
use gramoz.Schema.Enums.{PaymentStatus}
use gramoz.Schema.Rows.{Order, Payment, GatewayResponse}
use gramoz.Tx.{ok, pure, ◌>>=◌}
use gramoz.Tx.Post.{bind-inv}
use gramoz.Orders.Store.{find_order_by_id}
use gramoz.Payments.Store.{
  payment_id_is, transaction_is, update_payment, update_order, with_response, is_terminal,
  find_payment_by_transaction, find_latest_pending_payment,
}
use gramoz.Payments.Signature.{Ipn}
use gramoz.Payments.Verify.{handle_failed_payment, may_reset, ipn_response}
use gramoz.Payments.Callbacks.{
  fail_pending, fail_locked, fail_latest, fail_by_order, locked_payment, handle_fail_callback,
  handle_cancel_callback,
}
use gramoz.Payments.Writes.{
  same_transaction, failed, Writes, nothing, one, Keys, latest_pending-found,
}
use gramoz.Payments.Answering.{failure-Writes}

transaction_Single : (t : String) → Single same_transaction (transaction_is t)
transaction_Single t x y h k = go x.transaction_id y.transaction_id h k
  where
    go :
        (u v : Option String)
        → (elim u [ none ↦ false | some s ↦ str_eq s t ]) ≡ true
        → (elim v [ none ↦ false | some s ↦ str_eq s t ]) ≡ true
        → (elim u [ none ↦ false | some s ↦ elim v [ none ↦ false | some r ↦ str_eq r s ] ]) ≡ true
    go none v h k = cc
    go (some u) none h k = cc
    go (some u) (some v) h k =
        (str_eq_iff v u).1 ((str_eq_iff v t).0 k ∙ sym ((str_eq_iff u t).0 h))

-- Under the unique index the row read again is the row.
same_locked :
    (p : Payment) (a : Db)
    → Keys a
    → find (payment_id_is p.id) a.payments ≡ some p
    → locked_payment p a ≡ p
same_locked p a k e = elim (Option-cases p.transaction_id) [
  | inl n ↦ ground (arith, n)
  | inr (t, n) ↦
      let own : transaction_is t p ≡ true = ground (arith, n, (str_eq_iff t t).1 refl) in
      let there : find_payment_by_transaction t a ≡ some p =
        find_unique same_transaction (transaction_is t) (payment_id_is p.id) a.payments
          (transaction_Single t) k.transactions e own in
      ground (arith, n, there)
]

pending-Writes :
    {S : ℕ → Type 0} (now order : ℕ) (g : GatewayResponse) (o : Order) (p : Payment) (a : Db)
    {b : Db}
    → find (payment_id_is p.id) a.payments ≡ some p
    → p.order_id ≡ order
    → fail_pending now order g o p a ≡ ok (tt, b)
    → Writes S a b
unfolding fail_pending update_payment update_order
pending-Writes now order g o p a {b} e k h = elim (Bool-cases (is_terminal p.status)) [
  | inl i ↦ nothing (ground (arith, i, h))
  | inr i ↦ one (
      failed p (with_response now PaymentStatus.failed g) (may_reset (some o)) e i
        (λ y. (refl, refl, refl, refl)) (ground (arith, i, h, k)) (ground (arith, i, h)))
]

by_order-Writes :
    {S : ℕ → Type 0} (now : ℕ) (body : Ipn) (order : Option ℕ) (a : Db) {b : Db}
    → Keys a
    → fail_by_order now body order a ≡ ok (tt, b)
    → Writes S a b
unfolding fail_by_order fail_latest fail_locked
by_order-Writes now body none a k h = nothing (ground (arith, h))
by_order-Writes now body (some order) a {b} k h =
    elim (Option-cases (find_latest_pending_payment order a)) [
      | inl n ↦ nothing (ground (arith, n, h))
      | inr (p, n) ↦ elim (Option-cases (find_order_by_id order a)) [
        | inl m ↦ nothing (ground (arith, n, m, h))
        | inr (o, m) ↦
            let (there, pending) = latest_pending-found a order k.ids n in
            let done : fail_pending now order (ipn_response body) o p a ≡ ok (tt, b) =
              ground (arith, n, m, h, same_locked p a k there) in
            pending-Writes now order (ipn_response body) o p a there (ground (arith, pending)) done
      ]
    ]

pub fail_callback-Writes :
    {S : ℕ → Type 0} (now : ℕ) (body : Ipn) (a : Db) {b : Db}
    → Keys a
    → handle_fail_callback now body a ≡ ok (tt, b)
    → Writes S a b
unfolding handle_fail_callback
fail_callback-Writes now body a {b} k h = elim (Option-cases body.tran_id) [
  | inl n ↦
      let done : fail_by_order now body body.value_a a ≡ ok (tt, b) = ground (arith, n, h) in
      by_order-Writes now body body.value_a a k done
  | inr (t, n) ↦
      let call : (handle_failed_payment now (some t) (ipn_response body) >>= (λ _. pure tt)) a
          ≡ ok (tt, b) =
        ground (arith, n, h) in
      let (v, m, e, f) =
        bind-inv (handle_failed_payment now (some t) (ipn_response body)) (λ _. pure tt) a call in
      let done : handle_failed_payment now (some t) (ipn_response body) a ≡ ok (v, b) =
        e ∙ ground (arith, f) in
      failure-Writes now (some t) (ipn_response body) a k done
]

-- The two callbacks do the same.
pub cancel_callback-Writes :
    {S : ℕ → Type 0} (now : ℕ) (body : Ipn) (a : Db) {b : Db}
    → Keys a
    → handle_cancel_callback now body a ≡ ok (tt, b)
    → Writes S a b
unfolding handle_fail_callback handle_cancel_callback
cancel_callback-Writes now body a k h = fail_callback-Writes now body a k h
