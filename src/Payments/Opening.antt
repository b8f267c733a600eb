-- ===== src/Payments/Opening.antt =====
-- The writes of the calls that open a payment.
use gramoz.Common.{
  ℕ, ◌≡◌, refl, ap, sym, ◌∙◌, String, false, Option, none, some, List, [], ◌∷◌, arith, ◌==◌,
  Bool-cases, Option-cases, inl, inr, or_else,
}
use gramoz.Table.{find, update, exists}
use gramoz.Table.Laws.{find_sound}
use gramoz.Table.Unique.{exists-update}
use gramoz.Schema.{Db}
use gramoz.Schema.Enums.{OrderPaymentStatus, PaymentStatus, order_payment_eq}
use gramoz.Schema.Rows.{Order, Payment}
use gramoz.Tx.{Tx, ok, pure, write, ◌>>=◌, ◌>>◌, invalid_operation, payment_exists}
use gramoz.Tx.Post.{bind-inv}
use gramoz.Tx.Calls.{throw_if-inv}
use gramoz.Orders.Store.{order_id_is, find_order_by_id}
use gramoz.Payments.Store.{
  payment_id_is, transaction_is, transaction_taken, create_payment, update_order, update_payment,
  with_status, with_payment_status, find_latest_pending_payment,
}
use gramoz.Payments.Cod.{
  find_payable_order, initiate_cod, create_cod_payment, cod_payment, put_cod_payment, was_initiated,
  non_retryable,
}
use gramoz.Payments.Initiate.{check_session, open_session, replace_session, session_payment}
use gramoz.Payments.Writes.{
  pending_for, initiates, Write, opened, failed, Writes, nothing, one, Writes-trans, Keys,
  latest_pending-found, latest_pending-none,
}
use gramoz.Payments.Sound.{Calm, sole_gone}

-- No payment has this id.
abbrev pub Unused : ℕ → Db → Type 0
Unused id db = exists (λ (p : Payment). id == p.id) db.payments ≡ false

pub find_payable-inv :
    (user id : ℕ) (db : Db) {o : Order} {after : Db}
    → find_payable_order user id db ≡ ok (o, after)
    → (find_order_by_id id db ≡ some o) × (after ≡ db)
unfolding find_payable_order
find_payable-inv user id db h = elim (Option-cases (find_order_by_id id db)) [
  | inl n ↦ ground (arith, n, h)
  | inr (o, n) ↦ ground (arith, n, h)
]

-- The last part of either transaction that opens a payment.
abbrev pub put_payment : ℕ → Payment → Tx Payment
put_payment k q =
    create_payment q
    >>= (λ p. write (update_order k (with_payment_status OrderPaymentStatus.initiated)) >> pure p)

put_payment-inv :
    (k : ℕ) (q : Payment) (db : Db) {p : Payment} {after : Db}
    → put_payment k q db ≡ ok (p, after)
    → (p ≡ q)
      × (transaction_taken q.transaction_id db.payments ≡ false)
      × (after.orders ≡ update (order_id_is k) initiates db.orders)
      × (after.payments ≡ q ∷ db.payments)
unfolding create_payment update_order
put_payment-inv k q db h = ground arith

never : (ps : List Payment) → exists (λ _. false) ps ≡ false
never [] = refl
never (x ∷ ps) = never ps

untaken_of :
    (o : Option String) (ps : List Payment)
    → transaction_taken o ps ≡ false
    → exists (λ y. elim o [ none ↦ false | some t ↦ transaction_is t y ]) ps ≡ false
untaken_of none ps h = never ps
untaken_of (some t) ps h = h

put_payment-Write :
    {S : ℕ → Type 0} (o : Order) (q : Payment) (db : Db) {p : Payment} {after : Db}
    → find_order_by_id o.id db ≡ some o
    → (S o.id → exists (pending_for o.id) db.payments ≡ false)
    → Unused q.id db
    → q.order_id ≡ o.id
    → q.status ≡ PaymentStatus.pending
    → put_payment o.id q db ≡ ok (p, after)
    → Write S db after
put_payment-Write o q db there clear unused k s h =
    let (_, free, w, v) = put_payment-inv o.id q db h in
    opened o q there clear
      (record {
        of_order = k;
        pending = s;
        fresh = unused;
        untaken = untaken_of q.transaction_id db.payments free;
      })
      w v

-- `initiateCod` writes one new payment.
create_cod-inv :
    (now id : ℕ) (o : Order) (db : Db) {p : Payment} {after : Db}
    → find_order_by_id o.id db ≡ some o
    → create_cod_payment now id o db ≡ ok (p, after)
    → put_payment o.id (cod_payment now id o) db ≡ ok (p, after)
unfolding create_cod_payment put_cod_payment
create_cod-inv now id o db {p} {after} there h =
    (throw_if-inv (was_initiated o o) (invalid_operation payment_exists)
      (put_payment o.id (cod_payment now id o)) db
      (ap (λ x. put_cod_payment now id o (or_else x o) db) (sym there) ∙ h)).1

pub cod-Write :
    {S : ℕ → Type 0} (now id user order : ℕ) (db : Db) {p : Payment} {after : Db}
    → Calm S db
    → Unused id db
    → initiate_cod now id user order db ≡ ok (p, after)
    → Write S db after
unfolding initiate_cod
cod-Write now id user order db {p} {after} x unused h =
    let (o, mid, e, f) = bind-inv (find_payable_order user order) _ db h in
    let (there, same) = find_payable-inv user order db e in
    let (retryable, g) =
      throw_if-inv (non_retryable o.payment_status) _ (create_cod_payment now id o) mid f in
    let key : o.id ≡ order = ground (arith, find_sound (order_id_is order) db.orders there) in
    let own : find_order_by_id o.id db ≡ some o = ap (λ k. find_order_by_id k db) key ∙ there in
    put_payment-Write o (cod_payment now id o) db own
      (λ s. (x o.id s).idle o own (ground (arith, retryable))) unused refl refl
      (create_cod-inv now id o db own (ap (create_cod_payment now id o) (sym same) ∙ g))

-- What the checks of the transaction leave: an order without a session.
record Ready (S : ℕ → Type 0) (o : Order) (id : ℕ) (a b : Db) : Type 0 where
  writes : Writes S a b
  there : find_order_by_id o.id b ≡ some o
  clear : S o.id → exists (pending_for o.id) b.payments ≡ false
  unused : Unused id b

ready :
    {S : ℕ → Type 0} (o : Order) (id : ℕ) (a b : Db)
    → b ≡ a
    → find_order_by_id o.id a ≡ some o
    → (S o.id → exists (pending_for o.id) a.payments ≡ false)
    → Unused id a
    → Ready S o id a b
ready o id a b e t c u = record {
  writes = nothing e;
  there = ap (find_order_by_id o.id) e ∙ t;
  clear = λ s. ap (λ d. exists (pending_for o.id) d.payments) e ∙ c s;
  unused = ap (λ d. exists (λ (p : Payment). id == p.id) d.payments) e ∙ u;
}

replaced-Ready :
    {S : ℕ → Type 0} (now id : ℕ) (o : Order) (p : Payment) (a b : Db)
    → Keys a
    → Calm S a
    → find_order_by_id o.id a ≡ some o
    → find_latest_pending_payment o.id a ≡ some p
    → Unused id a
    → b.orders ≡ a.orders
    → b.payments ≡ update (payment_id_is p.id) (with_status now PaymentStatus.failed) a.payments
    → Ready S o id a b
replaced-Ready now id o p a b keys x t e u w v =
    let (there, pending) = latest_pending-found a o.id keys.ids e in
    record {
      writes = one (
          failed p (with_status now PaymentStatus.failed) false there (ground (arith, pending))
            (λ y. (refl, refl, refl, refl)) w v);
      there = ap (find (order_id_is o.id)) w ∙ t;
      clear = λ s.
          ap (λ r. exists (pending_for o.id) r) v
          ∙ sole_gone PaymentStatus.failed (with_status now PaymentStatus.failed)
              (λ y. (refl, refl, refl, refl)) refl o.id a.payments p (x o.id s).sole there pending;
      unused =
          ap (λ r. exists (λ (y : Payment). id == y.id) r) v
          ∙ exists-update (λ (y : Payment). id == y.id) (payment_id_is p.id)
              (with_status now PaymentStatus.failed) a.payments (λ y. refl)
          ∙ u;
    }

check_session-Ready :
    {S : ℕ → Type 0} (now id : ℕ) (o : Order) (a : Db) {b : Db}
    → Keys a
    → Calm S a
    → find_order_by_id o.id a ≡ some o
    → Unused id a
    → check_session now o a ≡ ok (tt, b)
    → Ready S o id a b
unfolding check_session replace_session update_payment
check_session-Ready now id o a {b} keys x t u h =
    elim (Bool-cases (order_payment_eq o.payment_status OrderPaymentStatus.initiated)) [
      | inl i ↦ elim (Option-cases (find_latest_pending_payment o.id a)) [
        | inl n ↦ ready o id a b (ground (arith, i, n, h)) t (λ _. latest_pending-none a o.id n) u
        | inr (p, n) ↦
            replaced-Ready now id o p a b keys x t n u (ground (arith, i, n, h))
              (ground (arith, i, n, h))
      ]
      | inr i ↦
          ready o id a b (ground (arith, i, h)) t (λ s. (x o.id s).idle o t (ground (arith, i, h)))
            u
    ]

pub open_session-Writes :
    {S : ℕ → Type 0} (now id : ℕ) (tran method : String) (o l : Order) (a : Db) {p : Payment}
    {b : Db}
    → Keys a
    → Calm S a
    → find_order_by_id o.id a ≡ some l
    → Unused id a
    → open_session now id tran method o a ≡ ok (p, b)
    → Writes S a b
      × (find (payment_id_is p.id) b.payments ≡ some p)
      × (p.status ≡ PaymentStatus.pending)
unfolding open_session
open_session-Writes now id tran method o l a {p} {b} keys x t u h =
    let key : o.id ≡ l.id = ground (arith, find_sound (order_id_is o.id) a.orders t) in
    let own : find_order_by_id l.id a ≡ some l = ap (λ k. find_order_by_id k a) (sym key) ∙ t in
    let (_, mid, e, f) =
      bind-inv (check_session now l) (λ _. put_payment o.id (session_payment now id tran method l))
        a
        (ap
            (λ y.
              (check_session now (or_else y o)
                  >> put_payment o.id (session_payment now id tran method (or_else y o)))
                a)
            (sym t)
          ∙ h) in
    let r = check_session-Ready now id l a keys x own u e in
    let g : put_payment l.id (session_payment now id tran method l) mid ≡ ok (p, b) =
      ap (λ k. put_payment k (session_payment now id tran method l) mid) (sym key) ∙ f in
    let (same, _, _, v) = put_payment-inv l.id (session_payment now id tran method l) mid g in
    (
      Writes-trans r.writes (
          one (
            put_payment-Write l (session_payment now id tran method l) mid r.there r.clear r.unused
              refl refl g)),
      ap (find (payment_id_is p.id)) v ∙ ground (arith, same),
      ap (λ y. y.status) same,
    )
