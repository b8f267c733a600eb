-- ===== src/Orders/Lifecycle.antt =====
-- The life of an order over many calls: which statuses follow which, and when a cancellation ends
-- well (server/src/modules/orders/orders.service.ts).
use gramoz.Common.{
  ℕ, ◌≡◌, refl, ap, ◌∙◌, sym, subst, Bool, true, false, not, Option, some, arith, ◌==◌,
  if◌then◌else◌, inl, inr, ◌⊎◌,
}
use gramoz.Table.{update}
use gramoz.Schema.{Db}
use gramoz.Schema.Enums.{OrderStatus, order_status_eq}
use gramoz.Schema.Rows.{Order}
use gramoz.Tx.{
  Tx, ok, pure, write, ◌>>=◌, ◌>>◌, or_throw, throw_if, entity_not_found, order_not_found,
  invalid_operation, invalid_transition,
}
use gramoz.Tx.Post.{bind-inv, or_throw-inv}
use gramoz.Orders.Transitions.{allowed, cancellable, order_state_transitions}
use gramoz.Orders.Store.{
  find_order_by_id, order_id_is, is_cancellable, update_order_status, create_outbox_event,
}
use gramoz.Orders.Cancel.{check_cancellable, cancel_checked, cancel_found, cancel_order_internal}
use gramoz.Orders.Release.{Expirable}
use gramoz.Orders.Restock.{cancel_restocks}
use gramoz.Orders.Status.{set_status, move_order, announce}

checked :
    (e : Bool) (o : Order) (db : Db) {r : Unit {0} × Db}
    → check_cancellable e o db ≡ ok r
    → (cancellable o.status ≡ true) × Expirable e o
unfolding check_cancellable
checked e o db h = ground arith

-- A cancellation succeeds only for an order that is pending or processing; as an expiry, only for
-- one that is pending and not paid.
pub cancel_needs :
    (now id : ℕ) (e : Bool) (db : Db) {r : Order × Db}
    → cancel_order_internal now id e db ≡ ok r
    → (o : Order) × (find_order_by_id id db ≡ some o)
      × (cancellable o.status ≡ true)
      × Expirable e o
unfolding cancel_order_internal cancel_found
cancel_needs now id e db h =
    let (o, mid, found, rest) =
      bind-inv (or_throw (find_order_by_id id db) (entity_not_found order_not_found))
        (cancel_found now id e) db h in
    let (_, _, pass, _) =
      bind-inv (check_cancellable e o) (λ _. cancel_checked now id o) mid rest in
    let (legal, expirable) = checked e o mid pass in
    (o, (or_throw-inv (find_order_by_id id db) _ db found).0, legal, expirable)

-- The rows of `orders` after a change of status.
pub record Moved (id : ℕ) (p : Order → Bool) (t : OrderStatus) (db after : Db) : Type 0 where
  pub orders : after.orders ≡ update p (λ o. record o { status = t }) db.orders
  pub only : (o : Order) → p o ≡ true → (o.id == id) ≡ true
  pub legal : (o : Order) → find_order_by_id id db ≡ some o → p o ≡ true → allowed o.status t ≡ true

pub cancel-legal : (s : OrderStatus) → cancellable s ≡ true → allowed s OrderStatus.cancelled ≡ true
unfolding allowed order_state_transitions
cancel-legal OrderStatus.pending h = refl
cancel-legal OrderStatus.processing h = refl
cancel-legal OrderStatus.shipped h = h
cancel-legal OrderStatus.out_for_delivery h = h
cancel-legal OrderStatus.delivered h = h
cancel-legal OrderStatus.cancelled h = h
cancel-legal OrderStatus.refunded h = h

pub cancel-Moved :
    (now id : ℕ) (e : Bool) (db : Db) {o : Order} {after : Db}
    → cancel_order_internal now id e db ≡ ok (o, after)
    → Moved id (is_cancellable id) OrderStatus.cancelled db after
cancel-Moved now id e db {o} {after} h =
    let (row, f, c, x) = cancel_needs now id e db h in
    let (end, run, _, _, orders) = cancel_restocks now id e db row f c x in
    let same : end ≡ after = ground (arith, run, h) in
    record {
      orders = ap (λ d. d.orders) (sym same) ∙ orders;
      only = λ y p. ground (arith, p);
      legal = λ y g p. cancel-legal y.status (ground (arith, p));
    }

announce-orders :
    (t : OrderStatus) (id : ℕ) (o : Order) (db : Db) → (announce t id o db).orders ≡ db.orders
unfolding announce create_outbox_event
announce-orders t id o db = ground arith

pub move_order-orders :
    (id : ℕ) (t : OrderStatus) (existing : Order) (db : Db) {o : Order} {after : Db}
    → move_order id t existing db ≡ ok (o, after)
    → (allowed existing.status t ≡ true)
      × (after.orders ≡ update (order_id_is id) (λ o. record o { status = t }) db.orders)
unfolding move_order update_order_status
move_order-orders id t existing db {o} {after} h =
    let (_, mid, legal, rest) =
      bind-inv (throw_if (not (allowed existing.status t)) (invalid_operation invalid_transition))
        (λ _. update_order_status id t >>= moved) db h in
    let (row, next, found, end) = bind-inv (update_order_status id t) moved mid rest in
    let (w, last, some_row, told) =
      bind-inv (or_throw row (entity_not_found order_not_found)) told_of next end in
    let written : announce t id w last ≡ after = ground (arith, told) in
    let kept : next ≡ last = (or_throw-inv row _ next some_row).1 in
    let set : update (order_id_is id) (λ o. record o { status = t }) mid.orders ≡ next.orders =
      ground (arith, found) in
    let start : db ≡ mid = ground (arith, legal) in
    (
      ground (arith, legal),
      ap (λ d. d.orders) (sym written)
          ∙ announce-orders t id w last
          ∙ ap (λ d. d.orders) (sym kept)
          ∙ sym set
          ∙ ap (λ d. update (order_id_is id) (λ o. record o { status = t }) d.orders) (sym start),
    )
  where
    told_of : Order → Tx Order
    told_of o = write (announce t id o) >> pure o

    moved : Option Order → Tx Order
    moved row = or_throw row (entity_not_found order_not_found) >>= told_of

settled :
    (b : Bool) (id : ℕ) (t : OrderStatus) (existing : Order) (db : Db) {o : Order} {after : Db}
    → find_order_by_id id db ≡ some existing
    → (if b then pure existing else move_order id t existing) db ≡ ok (o, after)
    → (after.orders ≡ db.orders) ⊎ Moved id (order_id_is id) t db after
settled true id t existing db f h = inl (ground (arith, h))
settled false id t existing db f h =
    let (legal, moved) = move_order-orders id t existing db h in
    inr (record {
      orders = moved;
      only = λ y p. p;
      legal = λ y g p.
          subst {A = Order} (λ z. allowed z.status t ≡ true) {x = existing} {y = y}
            (ground (arith, f, g)) legal;
    })

-- A change of status: nothing, or a move.
pub set_status-orders :
    (id : ℕ) (t : OrderStatus) (db : Db) {o : Order} {after : Db}
    → set_status id t db ≡ ok (o, after)
    → (after.orders ≡ db.orders) ⊎ Moved id (order_id_is id) t db after
unfolding set_status
set_status-orders id t db {o} {after} h =
    let (existing, mid, found, rest) =
      bind-inv (or_throw (find_order_by_id id db) (entity_not_found order_not_found)) kept_or_moved
        db h in
    let (f, same) = or_throw-inv (find_order_by_id id db) _ db found in
    settled (order_status_eq existing.status t) id t existing db f
      (ap (kept_or_moved existing) same ∙ rest)
  where
    kept_or_moved : Order → Tx Order
    kept_or_moved existing =
        if order_status_eq existing.status t then pure existing else move_order id t existing
