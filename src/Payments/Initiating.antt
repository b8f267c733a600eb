-- ===== src/Payments/Initiating.antt =====
-- The writes of `initiatePayment`.
use gramoz.Common.{
  ℕ, ◌≡◌, refl, ap, sym, ◌∙◌, subst, String, true, Option, none, some, arith, ◌==◌, if◌then◌else◌,
  Bool-cases, Option-cases, inl, inr, ◌⊎◌, str_eq,
}
use gramoz.Table.{find, update, exists}
use gramoz.Table.Laws.{find_sound, find-changed}
use gramoz.Table.Unique.{exists-update}
use gramoz.Schema.{Db}
use gramoz.Schema.Enums.{OrderPaymentStatus, PaymentStatus, order_payment_eq, payment_is_pending}
use gramoz.Schema.Rows.{Order, Payment, User}
use gramoz.Tx.{Result, ok, pure, ◌>>>◌, run_transaction, entity_not_found, user_not_found}
use gramoz.Tx.Post.{bind-inv, or_throw-inv}
use gramoz.Tx.Calls.{throw_if-inv, run-inv, tx-inv}
use gramoz.Orders.Store.{order_id_is, find_order_by_id, get_user_basic_info}
use gramoz.Payments.Store.{
  payment_id_is, update_order, update_payment, with_status, find_latest_payment,
}
use gramoz.Payments.Cod.{find_payable_order, initiate_cod}
use gramoz.Payments.Initiate.{
  SessionRequest, SessionAnswer, opened, not_opened, unreachable, Initiated, by_cod, check_unpaid,
  check_initiate, find_stale_session, stale_session, cancel_stale, is_paid_or_refunded, pay_by,
  pay_online, pay_at_gateway, pay_checked, pay_cod, find_payer, answer_session, close_session,
  cleanup, open_session, initiate_payment, is_valid_method, method_value, session_request,
}
use gramoz.Payments.Writes.{frees, failed, Writes, nothing, one, Writes-trans, Keys, latest-found}
use gramoz.Payments.Sound.{Calm}
use gramoz.Payments.Kept.{Writes-Keys, Writes-Calm}
use gramoz.Payments.Opening.{Unused, find_payable-inv, cod-Write, open_session-Writes}

-- The session that is to be cancelled, if there is one.
abbrev Lapsed : Order → Option Payment → Db → Type 0
Lapsed o s a =
    (s ≡ none)
    ⊎ ((p : Payment) × (s ≡ some p)
        × (find_latest_payment o.id a ≡ some p)
        × (payment_is_pending p.status ≡ true))

find_stale-inv :
    (now : ℕ) (o : Order) (a : Db) {s : Option Payment} {b : Db}
    → find_stale_session now o a ≡ ok (s, b)
    → (b ≡ a) × Lapsed o s a
unfolding find_stale_session stale_session
find_stale-inv now o a h =
    elim (Bool-cases (order_payment_eq o.payment_status OrderPaymentStatus.initiated)) [
      | inl i ↦ elim (Option-cases (find_latest_payment o.id a)) [
        | inl n ↦ ground (arith, i, n, h)
        | inr (p, n) ↦
            (ground (arith, i, n, h), inr (p, ground (arith, i, n, h), n, ground (arith, i, n, h)))
      ]
      | inr i ↦ (ground (arith, i, h), inl (ground (arith, i, h)))
    ]

check_unpaid-inv :
    (now : ℕ) (l : Order) (a : Db) {r : Order × Option Payment} {b : Db}
    → check_unpaid now l a ≡ ok (r, b)
    → (b ≡ a) × (r.0 ≡ l) × Lapsed l r.1 a
unfolding check_unpaid
check_unpaid-inv now l a {r} {b} h =
    let (_, g) = throw_if-inv (is_paid_or_refunded l.payment_status) _ _ a h in
    let (t, n, i, j) = bind-inv (find_stale_session now l) (λ t. pure (l, t)) a g in
    let (still, stale) = find_stale-inv now l a i in
    let end : (l, t) ≡ r = ground (arith, j) in
    let last : n ≡ b = ground (arith, j) in
    (sym last ∙ still, ap (λ y. y.0) (sym end), subst (λ y. Lapsed l y.1 a) end stale)

check_initiate-inv :
    (now user order : ℕ) (a : Db) {r : Order × Option Payment} {b : Db}
    → check_initiate now user order a ≡ ok (r, b)
    → (b ≡ a) × (find_order_by_id order a ≡ some r.0) × Lapsed r.0 r.1 a
unfolding check_initiate
check_initiate-inv now user order a {r} h =
    let (l, m, e, f) = bind-inv (find_payable_order user order) (check_unpaid now) a h in
    let (there, same) = find_payable-inv user order a e in
    let (still, own, stale) = check_unpaid-inv now l a (ap (check_unpaid now l) (sym same) ∙ f) in
    (still, there ∙ ap some (sym own), subst (λ o. Lapsed o r.1 a) (sym own) stale)

-- What is known of the database after the stale session.
record Renewed (S : ℕ → Type 0) (o : Order) (id : ℕ) (a b : Db) : Type 0 where
  writes : Writes S a b
  row : Order
  there : find_order_by_id o.id b ≡ some row
  unused : Unused id b

cancel_stale-Renewed :
    {S : ℕ → Type 0} (now id : ℕ) (o : Order) (s : Option Payment) (a : Db) {b : Db}
    → Keys a
    → find_order_by_id o.id a ≡ some o
    → Lapsed o s a
    → Unused id a
    → cancel_stale now o.id s a ≡ ok (tt, b)
    → Renewed S o id a b
unfolding cancel_stale update_payment update_order
cancel_stale-Renewed now id o s a {b} x t (inl n) u h =
    let same : b ≡ a = ground (arith, n, h) in
    record {
      writes = nothing same;
      row = o;
      there = ap (find_order_by_id o.id) same ∙ t;
      unused = ap (λ d. exists (λ (p : Payment). id == p.id) d.payments) same ∙ u;
    }
cancel_stale-Renewed now id o s a {b} x t (inr (p, n, e, pending)) u h =
    let (there, of_order) = latest-found a o.id x.ids e in
    let key : o.id ≡ p.order_id = ground (arith, of_order) in
    let w : b.orders ≡ update (order_id_is o.id) frees a.orders = ground (arith, n, h) in
    let v : b.payments
        ≡ update (payment_id_is p.id) (with_status now PaymentStatus.failed) a.payments =
      ground (arith, n, h) in
    record {
      writes = one (
          failed p (with_status now PaymentStatus.failed) true there (ground (arith, pending))
            (λ y. (refl, refl, refl, refl))
            (w ∙ ap (λ k. update (order_id_is k) frees a.orders) key) v);
      row = if o.id == o.id then frees o else o;
      there =
          ap (find (order_id_is o.id)) w
          ∙ find-changed (order_id_is o.id) (order_id_is o.id) frees a.orders (λ y. refl) t;
      unused =
          ap (λ r. exists (λ (y : Payment). id == y.id) r) v
          ∙ exists-update (λ (y : Payment). id == y.id) (payment_id_is p.id)
              (with_status now PaymentStatus.failed) a.payments (λ y. refl)
          ∙ u;
    }

answer-Writes :
    {S : ℕ → Type 0} (now : ℕ) (answer : SessionAnswer) (p : Payment) (a : Db)
    {r : Result Initiated} {b : Db}
    → find (payment_id_is p.id) a.payments ≡ some p
    → p.status ≡ PaymentStatus.pending
    → answer_session now answer p a ≡ (r, b)
    → Writes S a b
unfolding answer_session close_session update_payment update_order
answer-Writes now (opened url) p a t s h = nothing (sym (ap (λ y. y.1) h))
answer-Writes now (not_opened g) p a t s h = one (
    failed p (cleanup now (not_opened g)) true t (ground (arith, s)) (λ y. (refl, refl, refl, refl))
      (ground (arith, h)) (ground (arith, h)))
answer-Writes now unreachable p a t s h = one (
    failed p (cleanup now unreachable) true t (ground (arith, s)) (λ y. (refl, refl, refl, refl))
      (ground (arith, h)) (ground (arith, h)))

module _ {S : ℕ → Type 0} (gateway : SessionRequest → SessionAnswer) where
  session-Writes :
      (now id : ℕ) (tran requested : String) (o l : Order) (u : User) (a : Db)
      {r : Result Initiated} {b : Db}
      → Keys a
      → Calm S a
      → find_order_by_id o.id a ≡ some l
      → Unused id a
      → pay_at_gateway gateway now id tran requested o u a ≡ (r, b)
      → Writes S a b
  unfolding pay_at_gateway
  session-Writes now id tran requested o l u a keys x t n h =
      let answer = gateway (session_request tran requested o u) in
      elim (tx-inv (open_session now id tran (method_value requested) o) (answer_session now answer)
        a h) [
          | inr same ↦ nothing same
          | inl (p, m, f, g) ↦
              let (ws, there, s) =
                open_session-Writes now id tran (method_value requested) o l a keys x t n f in
              Writes-trans ws (answer-Writes now answer p m there s g)
        ]

  online-Writes :
      (now id : ℕ) (tran requested : String) (user : ℕ) (o l : Order) (a : Db)
      {r : Result Initiated} {b : Db}
      → Keys a
      → Calm S a
      → find_order_by_id o.id a ≡ some l
      → Unused id a
      → pay_online gateway now id tran requested user o a ≡ (r, b)
      → Writes S a b
  unfolding pay_online find_payer
  online-Writes now id tran requested user o l a keys x t n h =
      elim (tx-inv (find_payer user) (pay_at_gateway gateway now id tran requested o) a h) [
        | inr same ↦ nothing same
        | inl (u, m, f, g) ↦
            let (_, same) =
              or_throw-inv (get_user_basic_info user a) (entity_not_found user_not_found) a f in
            session-Writes now id tran requested o l u a keys x t n
              (ap (pay_at_gateway gateway now id tran requested o u) same ∙ g)
      ]

  cod-Writes :
      (now id user order : ℕ) (a : Db) {r : Result Initiated} {b : Db}
      → Keys a
      → Calm S a
      → Unused id a
      → run_transaction (pay_cod now id user order) a ≡ (r, b)
      → Writes S a b
  unfolding pay_cod
  cod-Writes now id user order a {r} {b} keys x n h =
      elim (run-inv (pay_cod now id user order) a h) [
        | inr (same, _) ↦ nothing same
        | inl (_, _, i) ↦
            let (p, m, e, f) =
              bind-inv (initiate_cod now id user order) (λ p. pure (by_cod p)) a i in
            let last : b ≡ m = ground (arith, f) in
            Writes-trans (one (cod-Write now id user order a x n e)) (nothing last)
      ]

  pay_by-Writes :
      (now id : ℕ) (tran requested : String) (user : ℕ) (o l : Order) (a : Db)
      {r : Result Initiated} {b : Db}
      → Keys a
      → Calm S a
      → find_order_by_id o.id a ≡ some l
      → Unused id a
      → pay_by gateway now id tran requested user o a ≡ (r, b)
      → Writes S a b
  unfolding pay_by
  pay_by-Writes now id tran requested user o l a {r} {b} keys x t n h =
      elim (Bool-cases (is_valid_method requested)) [
        | inr i ↦ nothing (ground (arith, i, h))
        | inl i ↦ elim (Bool-cases (str_eq requested "cod")) [
          | inl j ↦
              let done : run_transaction (pay_cod now id user o.id) a ≡ (r, b) =
                ground (arith, i, j, h) in
              cod-Writes now id user o.id a keys x n done
          | inr j ↦
              let done : pay_online gateway now id tran requested user o a ≡ (r, b) =
                ground (arith, i, j, h) in
              online-Writes now id tran requested user o l a keys x t n done
        ]
      ]

  pub initiate-Writes :
      (now id : ℕ) (tran requested : String) (user order : ℕ) (a : Db) {r : Result Initiated}
      {b : Db}
      → Keys a
      → Calm S a
      → Unused id a
      → initiate_payment gateway now id tran requested user order a ≡ (r, b)
      → Writes S a b
  unfolding initiate_payment pay_checked
  initiate-Writes now id tran requested user order a keys x n h =
      elim (tx-inv (check_initiate now user order)
        (pay_checked gateway now id tran requested user order) a h) [
          | inr same ↦ nothing same
          | inl (s, m, f, g) ↦
              let (same, there, stale) = check_initiate-inv now user order a f in
              let key : order ≡ s.0.id =
                ground (arith, find_sound (order_id_is order) a.orders there) in
              let own : find_order_by_id s.0.id a ≡ some s.0 =
                ap (λ k. find_order_by_id k a) (sym key) ∙ there in
              elim (tx-inv (cancel_stale now s.0.id s.1)
                (λ _. pay_by gateway now id tran requested user s.0) a
                (ap
                    (λ k.
                      (run_transaction (cancel_stale now k s.1) >>> λ _.
                      pay_by gateway now id tran requested user s.0)
                        a)
                    (sym key)
                  ∙ ap (pay_checked gateway now id tran requested user order s) (sym same)
                  ∙ g)) [
                    | inr none_done ↦ nothing none_done
                    | inl (_, c, e, k) ↦
                        let v = cancel_stale-Renewed now id s.0 s.1 a keys own stale n e in
                        Writes-trans v.writes (
                          pay_by-Writes now id tran requested user s.0 v.row c
                            (Writes-Keys a c keys v.writes) (Writes-Calm a c keys x v.writes)
                            v.there v.unused k)
                  ]
        ]
