-- ===== src/Orders/Release.antt =====
-- The cancellation past its checks, as a function on the database (`cancelOrderInternal`).
use gramoz.Common.{
  ℕ, ◌≡◌, refl, ◌∙◌, Bool, true, false, not, ◌&&◌, Option, some, List, ◌∷◌, arith, ltb,
  if◌then◌else◌,
}
use gramoz.Table.{update}
use gramoz.Table.Laws.{find-refine}
use gramoz.Schema.{Db}
use gramoz.Schema.Enums.{OrderStatus}
use gramoz.Schema.Rows.{Order, OrderItem}
use gramoz.Tx.{
  Tx, Error, ok, pure, for_each, ◌>>=◌, ◌>>◌, entity_not_found, order_not_found,
  changed_concurrently, write, or_throw, invalid_operation,
}
use gramoz.Tx.Post.{bind-ok}
use gramoz.Loyalty.{refund_points, refund_row, create_transaction, has_points_been_refunded}
use gramoz.Orders.Transitions.{cancellable}
use gramoz.Orders.Store.{
  find_order_by_id, order_id_is, is_cancellable, cancelled_row, transition_for_cancellation,
  get_order_items_for_restock, get_points_spent_on_order, fail_pending_payments_for_order,
}
use gramoz.Orders.Cancel.{
  check_cancellable, restock_item, release_promo, return_points, notify_cancelled, require_refund,
  release_order, cancel_order_internal, is_paid,
}
use gramoz.Orders.Stock.{restock_all, for_each-restock}

-- The ledger after `return_points`.
unfoldable pub points_returned : ℕ → Order → Db → Db
points_returned order_id order db =
    let spent = get_points_spent_on_order order_id db in
    if ltb 0 spent && not (has_points_been_refunded order_id db)
    then record db { loyalty = refund_row order.user_id spent (some order_id) ∷ db.loyalty }
    else db

return_points_lem :
    (order_id : ℕ) (order : Order) (db : Db)
    → return_points order_id order db ≡ ok (tt, points_returned order_id order db)
unfolding return_points points_returned refund_points create_transaction
return_points_lem order_id order db = ground arith

unfoldable pub released : (now order_id : ℕ) (existing order : Order) → Db → Db
released now order_id existing order db = require_refund existing (
    notify_cancelled order (
      fail_pending_payments_for_order order_id now (
        points_returned order_id order (
          release_promo order.promo_id
            (restock_all order.id (get_order_items_for_restock order_id db) db)))))

release_order_lem :
    (now order_id : ℕ) (existing order : Order) (db : Db)
    → release_order now order_id existing order db
      ≡ ok (tt, released now order_id existing order db)
unfolding release_order released
release_order_lem now order_id existing order db =
    bind-ok (for_each (λ i. write (restock_item order.id i)) items)
      (λ _. write (release_promo order.promo_id) >> (return_points order_id order >> closing))
      (for_each-restock order.id items db)
    ∙ bind-ok (return_points order_id order) (λ _. closing) (return_points_lem order_id order _)
  where
    items : List OrderItem
    items = get_order_items_for_restock order_id db

    closing : Tx (Unit {0})
    closing = do
      write (fail_pending_payments_for_order order_id now)
      write (notify_cancelled order)
      write (require_refund existing)

-- The table of orders after the transition, all else unchanged.
unfoldable pub transitioned : ℕ → Db → Db
transitioned id db = record db { orders = update (is_cancellable id) cancelled_row db.orders }

-- When an expiry may cancel: only what is pending and not paid.
abbrev pub Expirable : Bool → Order → Type 0
Expirable is_expiry o = is_expiry ≡ true → (o.status ≡ OrderStatus.pending) × (is_paid o ≡ false)

check_cancellable_lem :
    (e : Bool) (o : Order) (db : Db)
    → cancellable o.status ≡ true
    → Expirable e o
    → check_cancellable e o db ≡ ok (tt, db)
unfolding check_cancellable
check_cancellable_lem e o db c x = ground arith

transition_lem :
    (id : ℕ) (db : Db) {o : Order}
    → find_order_by_id id db ≡ some o
    → cancellable o.status ≡ true
    → transition_for_cancellation id db ≡ ok (some (cancelled_row o), transitioned id db)
unfolding transition_for_cancellation transitioned
transition_lem id db {o} f c =
    rw (find-refine (order_id_is id) (λ x. cancellable x.status) db.orders f c) refl

found :
    (id : ℕ) (db : Db) (x : Error) {o : Order}
    → find_order_by_id id db ≡ some o
    → or_throw (find_order_by_id id db) x db ≡ ok (o, db)
found id db x f = rw f

-- A pending or processing order can always be cancelled (by an expiry, if it is pending and not
-- paid): the handler gives the cancelled row, and this database.
pub cancel_order_internal_lem :
    (now id : ℕ) (e : Bool) (db : Db) {o : Order}
    → find_order_by_id id db ≡ some o
    → cancellable o.status ≡ true
    → Expirable e o
    → cancel_order_internal now id e db
      ≡ ok (cancelled_row o, released now id o (cancelled_row o) (transitioned id db))
unfolding cancel_order_internal
cancel_order_internal_lem now id e db {o} f c x =
    bind-ok (or_throw (find_order_by_id id db) (entity_not_found order_not_found)) checked
      (found id db _ f)
    ∙ bind-ok (check_cancellable e o) (λ _. transition_for_cancellation id >>= λ row. moved o row)
        (check_cancellable_lem e o db c x)
    ∙ bind-ok (transition_for_cancellation id) (moved o) (transition_lem id db f c)
    ∙ bind-ok (release_order now id o (cancelled_row o)) (λ _. pure (cancelled_row o))
        (release_order_lem now id o (cancelled_row o) (transitioned id db))
  where
    moved : Order → Option Order → Tx Order
    moved existing row = do
      order ← or_throw row (invalid_operation changed_concurrently)
      release_order now id existing order
      pure order

    checked : Order → Tx Order
    checked existing = do
      check_cancellable e existing
      row ← transition_for_cancellation id
      moved existing row
