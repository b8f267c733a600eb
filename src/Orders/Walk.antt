-- ===== src/Orders/Walk.antt =====
-- The walk of an order through the statuses, over any sequence of calls
-- (server/src/modules/orders/orders.service.ts).
use gramoz.Common.{
  ℕ, ◌+◌, ◌≤◌, ◌<◌, ◌≡◌, refl, ap, ◌∙◌, subst, Bool, true, false, Option, none, some, arith,
  Bool-cases, inl, inr, ◌⊎◌, String,
}
use gramoz.Table.{find}
use gramoz.Table.Laws.{find_sound, find-changed}
use gramoz.Schema.{Db}
use gramoz.Schema.Enums.{OrderStatus}
use gramoz.Schema.Rows.{Order}
use gramoz.Tx.{Result, ok, err, run_transaction, invalid_operation, invalid_status}
use gramoz.Tx.Post.{run_transaction-eq-ok}
use gramoz.Orders.Transitions.{allowed, order_state_transitions}
use gramoz.Orders.Store.{find_order_by_id, order_id_is, is_cancellable}
use gramoz.Orders.Cancel.{cancel_order_internal, cancel_order, expire_order}
use gramoz.Orders.Status.{set_status, update_status, parse_status}
use gramoz.Orders.Lifecycle.{Moved, cancel-Moved, set_status-orders}

-- A chain of statuses, each allowed after the one before.
pub data Walk : OrderStatus → OrderStatus → Type 0 where
  here : {s : OrderStatus} → Walk s s
  then_to : {s m t : OrderStatus} → allowed s m ≡ true → Walk m t → Walk s t

-- A call of one of the handlers that succeeds.
pub data OrderStep (a b : Db) : Type 0 where
  cancels : (now user id : ℕ) (o : Order) → cancel_order now user id a ≡ (ok o, b) → OrderStep a b
  expires : (now id : ℕ) (o : Order) → expire_order now id a ≡ (ok o, b) → OrderStep a b
  updates :
      (now id : ℕ) (s : String) (o : Order) → update_status now id s a ≡ (ok o, b) → OrderStep a b

pub data OrderRun : Db → Db → Type 0 where
  done : {a : Db} → OrderRun a a
  next : {a b c : Db} → OrderStep a b → OrderRun b c → OrderRun a c

-- A step changes no status, or those of one order to one that is allowed.
abbrev Stepped : Db → Db → Type 0
Stepped a b =
    (b.orders ≡ a.orders) ⊎ ((id : ℕ) × (p : Order → Bool) × (t : OrderStatus) × Moved id p t a b)

of_cancel :
    (now id : ℕ) (e : Bool) (a b : Db) {o : Order}
    → run_transaction (cancel_order_internal now id e) a ≡ (ok o, b)
    → Stepped a b
of_cancel now id e a b h = inr (
  id,
  is_cancellable id,
  OrderStatus.cancelled,
  cancel-Moved now id e a (run_transaction-eq-ok (cancel_order_internal now id e) a h),
)

of_set :
    (id : ℕ) (t : OrderStatus) (a b : Db) {o : Order}
    → run_transaction (set_status id t) a ≡ (ok o, b)
    → Stepped a b
of_set id t a b h = elim (set_status-orders id t a (run_transaction-eq-ok (set_status id t) a h)) [
  | inl e ↦ inl e
  | inr m ↦ inr (id, order_id_is id, t, m)
]

of_user :
    (now user id : ℕ) (a b : Db) (o : Order)
    → cancel_order now user id a ≡ (ok o, b)
    → run_transaction (cancel_order_internal now id false) a ≡ (ok o, b)
unfolding cancel_order
of_user now user id a b o h = ground arith

of_text :
    (now id : ℕ) (s : String) (a b : Db) (o : Order)
    → update_status now id s a ≡ (ok o, b)
    → Stepped a b
unfolding update_status
of_text now id s a b o h = go (parse_status s) h
  where
    go :
        (t : Option OrderStatus)
        → (let r : Result Order × Db = elim t [
          | none ↦ (err (invalid_operation invalid_status), a)
          | some OrderStatus.cancelled ↦ run_transaction (cancel_order_internal now id false) a
          | some t ↦ run_transaction (set_status id t) a
        ] in
            r)
          ≡ (ok o, b)
        → Stepped a b
    go none e = cc
    go (some OrderStatus.cancelled) e = of_cancel now id false a b e
    go (some OrderStatus.pending) e = of_set id _ a b e
    go (some OrderStatus.processing) e = of_set id _ a b e
    go (some OrderStatus.shipped) e = of_set id _ a b e
    go (some OrderStatus.out_for_delivery) e = of_set id _ a b e
    go (some OrderStatus.delivered) e = of_set id _ a b e
    go (some OrderStatus.refunded) e = of_set id _ a b e

after_step :
    (k : ℕ) (a b : Db) (o : Order)
    → Stepped a b
    → find_order_by_id k a ≡ some o
    → (c : Order) × (find_order_by_id k b ≡ some c)
      × ((c.status ≡ o.status) ⊎ (allowed o.status c.status ≡ true))
after_step k a b o (inl e) f = (o, ap (find (order_id_is k)) e ∙ f, inl refl)
after_step k a b o (inr (id, p, t, m)) f = elim (Bool-cases (p o)) [
  | inl hit ↦
      let mine = find_sound (order_id_is k) a.orders f in
      let same : id ≡ k = ground (arith, mine, m.only o hit) in
      (
        record o { status = t },
        ap (find (order_id_is k)) m.orders
            ∙ find-changed (order_id_is k) p (λ x. record x { status = t }) a.orders (λ x. refl) f
            ∙ ground (arith, hit),
        inr (m.legal o (ap (λ j. find_order_by_id j a) same ∙ f) hit),
      )
  | inr miss ↦ (
    o,
    ap (find (order_id_is k)) m.orders
        ∙ find-changed (order_id_is k) p (λ x. record x { status = t }) a.orders (λ x. refl) f
        ∙ ground (arith, miss),
    inl refl,
  )
]

step-Stepped : (a b : Db) → OrderStep a b → Stepped a b
unfolding expire_order
step-Stepped a b (cancels now user id o e) =
    of_cancel now id false a b (of_user now user id a b o e)
step-Stepped a b (expires now id o e) = of_cancel now id true a b e
step-Stepped a b (updates now id s o e) = of_text now id s a b o e

join : {s m t : OrderStatus} → (m ≡ s) ⊎ (allowed s m ≡ true) → Walk m t → Walk s t
join {s} {m} {t} (inl e) w = subst (λ x. Walk x t) e w
join (inr a) w = then_to a w

-- An order's status only moves along ORDER_STATE_TRANSITIONS: over any sequence of cancellations,
-- expiries and status updates that succeed, on any orders, an order that existed still exists, and
-- its statuses before and after are joined by a chain of allowed transitions.
pub status_walks :
    (k : ℕ) (a b : Db) (o : Order)
    → OrderRun a b
    → find_order_by_id k a ≡ some o
    → (c : Order) × (find_order_by_id k b ≡ some c) × Walk o.status c.status
status_walks k a b o done f = (o, f, here)
status_walks k a b o (next s r) f =
    let (c, g, moved) = after_step k a _ o (step-Stepped a _ s) f in
    let (z, h, rest) = status_walks k _ b c r g in (z, h, join moved rest)

-- The place of a status in the life of an order.
abbrev rank : OrderStatus → ℕ
rank OrderStatus.pending = 0
rank OrderStatus.processing = 1
rank OrderStatus.shipped = 2
rank OrderStatus.out_for_delivery = 3
rank OrderStatus.delivered = 4
rank OrderStatus.cancelled = 5
rank OrderStatus.refunded = 5

allowed-rank : (s t : OrderStatus) → allowed s t ≡ true → rank s < rank t
unfolding allowed order_state_transitions
allowed-rank s t h = ground arith

abbrev pub steps : {s t : OrderStatus} → Walk s t → ℕ
steps here = 0
steps (then_to _ w) = 1 + steps w

climbs : {s t : OrderStatus} (w : Walk s t) → rank s + steps w ≤ rank t
climbs here = ground arith
climbs (then_to {s} {m} a w) = omega (arith, allowed-rank s m a, climbs w)

rank_le : (s : OrderStatus) → rank s ≤ 5
rank_le s = ground arith

-- A life is short: a chain of allowed transitions has at most five steps, and one that returns to
-- where it began has none.
pub walk_is_short : (s t : OrderStatus) (w : Walk s t) → (steps w ≤ 5) × (s ≡ t → steps w ≡ 0)
walk_is_short s t w = (omega (arith, climbs w, rank_le t), λ e. omega (arith, climbs w, ap rank e))
