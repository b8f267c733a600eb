-- ===== src/Orders/Restock.antt =====
-- What a cancellation does to the tables of products, variants and orders.
use gramoz.Common.{ℕ, ◌≡◌, refl, ap, ◌∙◌, sym, Bool, true, Option, none, some, List, [], ◌∷◌, arith}
use gramoz.Table.{find, update}
use gramoz.Table.Laws.{find-update, find_sound}
use gramoz.Table.Stock.{bump}
use gramoz.Schema.{Db}
use gramoz.Schema.Rows.{Order, OrderItem}
use gramoz.Tx.{
  ok, err, invalid_operation, already_cancelled, run_transaction, or_throw, entity_not_found,
  order_not_found,
}
use gramoz.Tx.Post.{bind-ok, bind-err}
use gramoz.Promos.{decrement_usage}
use gramoz.Orders.Goods.{SameGoods, SameGoods-trans}
use gramoz.Orders.Transitions.{cancellable}
use gramoz.Orders.Store.{
  find_order_by_id, order_id_is, is_cancellable, cancelled_row, get_order_items_for_restock,
  fail_pending_payments_for_order, create_outbox_event, create_inventory_transaction,
  restore_product_stock, restore_variant_stock,
}
use gramoz.Orders.Cancel.{
  check_cancellable, cancel_checked, cancel_found, is_cancelled, restock_item, restore_stock,
  release_promo, notify_cancelled, require_refund, cancel_order_internal,
}
use gramoz.Orders.Stock.{
  restock_all, products-restock_all, variants-restock_all, product_table, variant_table,
  product_amounts, variant_amounts,
}
use gramoz.Orders.Release.{
  points_returned, released, transitioned, Expirable, cancel_order_internal_lem,
}

release_promo-SameGoods : (p : Option ℕ) (db : Db) → SameGoods db (release_promo p db)
unfolding release_promo decrement_usage
release_promo-SameGoods none db = ground arith
release_promo-SameGoods (some id) db = ground arith

points_returned-SameGoods : (id : ℕ) (o : Order) (db : Db) → SameGoods db (points_returned id o db)
unfolding points_returned
points_returned-SameGoods id o db = ground arith

fail_pending-SameGoods :
    (id now : ℕ) (db : Db) → SameGoods db (fail_pending_payments_for_order id now db)
unfolding fail_pending_payments_for_order
fail_pending-SameGoods id now db = ground arith

notify_cancelled-SameGoods : (o : Order) (db : Db) → SameGoods db (notify_cancelled o db)
unfolding notify_cancelled create_outbox_event
notify_cancelled-SameGoods o db = ground arith

require_refund-SameGoods : (o : Order) (db : Db) → SameGoods db (require_refund o db)
unfolding require_refund create_outbox_event
require_refund-SameGoods o db = ground arith

released-SameGoods :
    (now id : ℕ) (existing order : Order) (db : Db)
    → SameGoods
        (restock_all order.id (get_order_items_for_restock id db) db)
        (released now id existing order db)
unfolding released
released-SameGoods now id existing order db =
    SameGoods-trans (release_promo-SameGoods order.promo_id _) (
      SameGoods-trans (points_returned-SameGoods id order _) (
        SameGoods-trans (fail_pending-SameGoods id now _) (
          SameGoods-trans (notify_cancelled-SameGoods order _)
            (require_refund-SameGoods existing _))))

orders-restock_item : (id : ℕ) (i : OrderItem) (db : Db) → (restock_item id i db).orders ≡ db.orders
unfolding restock_item restore_stock restore_product_stock restore_variant_stock
    create_inventory_transaction
orders-restock_item id i db = ground arith

orders-restock_all :
    (id : ℕ) (is : List OrderItem) (db : Db) → (restock_all id is db).orders ≡ db.orders
unfolding restock_all
orders-restock_all id [] db = refl
orders-restock_all id (i ∷ is) db =
    orders-restock_all id is (restock_item id i db) ∙ orders-restock_item id i db

-- A pending or processing order can be cancelled (by an expiry, if it is pending and not paid). The
-- cancellation succeeds, every product and every variant gets back exactly what the order's items
-- say, and of the orders only the cancelled one changes, in its status.
pub cancel_restocks :
    (now id : ℕ) (e : Bool) (db : Db) (o : Order)
    → find_order_by_id id db ≡ some o
    → cancellable o.status ≡ true
    → Expirable e o
    → (after : Db) × (cancel_order_internal now id e db ≡ ok (cancelled_row o, after))
      × (after.products
          ≡ bump product_table (product_amounts (get_order_items_for_restock id db)) db.products)
      × (after.variants
          ≡ bump variant_table (variant_amounts (get_order_items_for_restock id db)) db.variants)
      × (after.orders ≡ update (is_cancellable id) cancelled_row db.orders)
unfolding transitioned get_order_items_for_restock
cancel_restocks now id e db o f c x = (
  released now id o (cancelled_row o) (transitioned id db),
  cancel_order_internal_lem now id e db f c x,
  same.products
      ∙ products-restock_all o.id (get_order_items_for_restock id db) (transitioned id db),
  same.variants
      ∙ variants-restock_all o.id (get_order_items_for_restock id db) (transitioned id db),
  same.orders ∙ orders-restock_all o.id (get_order_items_for_restock id db) (transitioned id db),
)
  where
    same :
        SameGoods
          (restock_all o.id (get_order_items_for_restock id db) (transitioned id db))
          (released now id o (cancelled_row o) (transitioned id db))
    same = released-SameGoods now id o (cancelled_row o) (transitioned id db)

-- The row that a cancellation leaves.
found_cancelled :
    (id : ℕ) (db after : Db) (o : Order)
    → find_order_by_id id db ≡ some o
    → cancellable o.status ≡ true
    → after.orders ≡ update (is_cancellable id) cancelled_row db.orders
    → find_order_by_id id after ≡ some (cancelled_row o)
found_cancelled id db after o f c e =
    ap (find (order_id_is id)) e
    ∙ find-update (order_id_is id) (is_cancellable id) cancelled_row db.orders (λ x. refl) f
        (ground (arith, find_sound (order_id_is id) db.orders f))

refused :
    (e : Bool) (o : Order) (db : Db)
    → is_cancelled o ≡ true
    → check_cancellable e o db ≡ err (invalid_operation already_cancelled)
unfolding check_cancellable
refused e o db s = rw s

refuse_cancelled :
    (now id : ℕ) (e : Bool) (db : Db) (o : Order)
    → find_order_by_id id db ≡ some o
    → is_cancelled o ≡ true
    → cancel_order_internal now id e db ≡ err (invalid_operation already_cancelled)
unfolding cancel_order_internal
refuse_cancelled now id e db o f s =
    bind-ok (or_throw (find_order_by_id id db) (entity_not_found order_not_found))
      (cancel_found now id e) (rw f)
    ∙ bind-err (check_cancellable e o) (λ _. cancel_checked now id o) (refused e o db s)

-- An order is cancelled once: after a successful cancellation, every later cancellation or expiry of
-- the order is refused as already cancelled, and gives nothing back again.
pub cancel_once :
    (now later id : ℕ) (e again : Bool) (db : Db) (o c : Order) (after : Db)
    → find_order_by_id id db ≡ some o
    → cancellable o.status ≡ true
    → Expirable e o
    → cancel_order_internal now id e db ≡ ok (c, after)
    → run_transaction (cancel_order_internal later id again) after
      ≡ (err (invalid_operation already_cancelled), after)
cancel_once now later id e again db o c after f k x h =
    let (end, run, _, _, orders) = cancel_restocks now id e db o f k x in
    let same : end ≡ after = ground (arith, run, h) in
    let gone : find_order_by_id id after ≡ some (cancelled_row o) =
      found_cancelled id db after o f k (ap (λ d. d.orders) (sym same) ∙ orders) in
    let refusal = refuse_cancelled later id again after (cancelled_row o) gone refl in
    rw (refusal, run_transaction)
