-- ===== src/Orders/Points.antt =====
-- What a cancellation does to the ledger of loyalty points
-- (server/src/modules/orders/orders.service.ts).
use gramoz.Common.{
  ℕ, ◌≡◌, refl, ap, ◌∙◌, Bool, true, false, not, ◌&&◌, Option, none, some, List, [], ◌∷◌, arith,
  ◌==◌, if◌then◌else◌, ltb,
}
use gramoz.Common.Int.{ℤ, pos, ◌+ℤ◌}
use gramoz.Table.{select, sum_ℤ}
use gramoz.Schema.{Db}
use gramoz.Schema.Rows.{Order, OrderItem, LoyaltyPoint}
use gramoz.Tx.{ok}
use gramoz.Loyalty.{net_balance, refund_row, has_points_been_refunded, owned_by}
use gramoz.Promos.{decrement_usage}
use gramoz.Orders.Transitions.{cancellable}
use gramoz.Orders.Store.{
  find_order_by_id, cancelled_row, get_order_items_for_restock, fail_pending_payments_for_order,
  create_outbox_event, create_inventory_transaction, restore_product_stock, restore_variant_stock,
  get_points_spent_on_order,
}
use gramoz.Orders.Cancel.{
  restock_item, restore_stock, release_promo, notify_cancelled, require_refund,
  cancel_order_internal,
}
use gramoz.Orders.Stock.{restock_all}
use gramoz.Orders.Release.{
  points_returned, released, transitioned, Expirable, cancel_order_internal_lem,
}

loyalty-restock_item :
    (id : ℕ) (i : OrderItem) (db : Db) → (restock_item id i db).loyalty ≡ db.loyalty
unfolding restock_item restore_stock restore_product_stock restore_variant_stock
    create_inventory_transaction
loyalty-restock_item id i db = ground arith

loyalty-restock_all :
    (id : ℕ) (is : List OrderItem) (db : Db) → (restock_all id is db).loyalty ≡ db.loyalty
unfolding restock_all
loyalty-restock_all id [] db = refl
loyalty-restock_all id (i ∷ is) db =
    loyalty-restock_all id is (restock_item id i db) ∙ loyalty-restock_item id i db

loyalty-release_promo : (p : Option ℕ) (db : Db) → (release_promo p db).loyalty ≡ db.loyalty
unfolding release_promo decrement_usage
loyalty-release_promo none db = refl
loyalty-release_promo (some id) db = refl

loyalty-notify :
    (now id : ℕ) (o c : Order) (db : Db)
    → (require_refund o (notify_cancelled c (fail_pending_payments_for_order id now db))).loyalty
      ≡ db.loyalty
unfolding fail_pending_payments_for_order notify_cancelled require_refund create_outbox_event
loyalty-notify now id o c db = ground arith

abbrev returned_rows : ℕ → Order → Db → List LoyaltyPoint
returned_rows id o db =
    if ltb 0 (get_points_spent_on_order id db) && not (has_points_been_refunded id db)
    then refund_row o.user_id (get_points_spent_on_order id db) (some id) ∷ db.loyalty
    else db.loyalty

points_returned-loyalty :
    (id : ℕ) (o : Order) (db : Db) → (points_returned id o db).loyalty ≡ returned_rows id o db
unfolding points_returned
points_returned-loyalty id o db = ground arith

-- What the ledger says of an order depends on its rows alone.
returned_rows-same :
    (id : ℕ) (o : Order) (a b : Db)
    → a.loyalty ≡ b.loyalty
    → returned_rows id o a ≡ returned_rows id o b
unfolding get_points_spent_on_order has_points_been_refunded
returned_rows-same id o a b e = ap (λ rows. returned_rows id o (record a { loyalty = rows })) e

released-loyalty :
    (now id : ℕ) (o c : Order) (db : Db)
    → (released now id o c (transitioned id db)).loyalty ≡ returned_rows id c db
unfolding released transitioned
released-loyalty now id o c db =
    loyalty-notify now id o c _
    ∙ points_returned-loyalty id c _
    ∙ returned_rows-same id c _ db (
        loyalty-release_promo c.promo_id _
        ∙ loyalty-restock_all c.id (get_order_items_for_restock id (transitioned id db)) _)

-- The points a cancellation gives back.
abbrev pub owed : ℕ → Db → ℕ
owed id db = if has_points_been_refunded id db then 0 else get_points_spent_on_order id db

abbrev net : ℕ → List LoyaltyPoint → ℤ
net user rows = sum_ℤ (λ row. row.points) (select (owned_by user) rows)

net-returned :
    (id : ℕ) (o : Order) (db : Db)
    → net o.user_id (returned_rows id o db) ≡ pos (owed id db) +ℤ net o.user_id db.loyalty
unfolding ◌+ℤ◌
net-returned id o db = ground arith

net-returned-other :
    (user id : ℕ) (o : Order) (db : Db)
    → (o.user_id == user) ≡ false
    → net user (returned_rows id o db) ≡ net user db.loyalty
net-returned-other user id o db h = ground arith

-- A cancellation gives the points back: it adds to the net balance of the order's customer the
-- points that the ledger has spent on the order, or nothing if they were refunded before, and
-- leaves everybody else's balance as it was.
pub cancel_returns_points :
    (now id : ℕ) (e : Bool) (db : Db) (o : Order)
    → find_order_by_id id db ≡ some o
    → cancellable o.status ≡ true
    → Expirable e o
    → (after : Db) × (cancel_order_internal now id e db ≡ ok (cancelled_row o, after))
      × (net_balance o.user_id after ≡ pos (owed id db) +ℤ net_balance o.user_id db)
      × ((user : ℕ) → (o.user_id == user) ≡ false → net_balance user after ≡ net_balance user db)
unfolding net_balance
cancel_returns_points now id e db o f c x = (
  released now id o (cancelled_row o) (transitioned id db),
  cancel_order_internal_lem now id e db f c x,
  ap (net o.user_id) (released-loyalty now id o (cancelled_row o) db)
      ∙ net-returned id (cancelled_row o) db,
  λ user d.
      ap (net user) (released-loyalty now id o (cancelled_row o) db)
      ∙ net-returned-other user id (cancelled_row o) db d,
)
