-- ===== src/Examples/Cancelling.antt =====
-- Cancellations, expiries and status updates in the example shop.
use gramoz.Common.{ℕ, ◌≤◌, ◌≡◌, refl, true, false, arith, some, length, ◌==◌}
use gramoz.Common.Int.{◌+ℤ◌, pos}
use gramoz.Table.{update}
use gramoz.Table.Stock.{bump}
use gramoz.Schema.{Db}
use gramoz.Schema.Enums.{OrderStatus}
use gramoz.Schema.Rows.{Order}
use gramoz.Tx.{
  ok, err, invalid_operation, already_cancelled, invalid_transition, run_transaction, for_each,
}
use gramoz.Loyalty.{net_balance, refund_points, create_transaction, has_points_been_refunded}
use gramoz.Promos.{decrement_usage}
use gramoz.Orders.Transitions.{allowed, cancellable, order_state_transitions}
use gramoz.Orders.Store.{
  find_order_by_id, is_cancellable, cancelled_row, get_order_items_for_restock,
  transition_for_cancellation, restore_product_stock, restore_variant_stock,
  create_inventory_transaction, get_points_spent_on_order, fail_pending_payments_for_order,
  get_user_basic_info, create_outbox_event,
}
use gramoz.Orders.Cancel.{
  cancel_order_internal, cancel_order, cancel_found, cancel_checked, check_cancellable, check_owner,
  release_order, restock_item, restore_stock, release_promo, return_points, notify_cancelled,
  require_refund, expire_order,
}
use gramoz.Orders.Release.{Expirable}
use gramoz.Orders.Restock.{cancel_restocks, cancel_once}
use gramoz.Orders.Stock.{product_table, variant_table, product_amounts, variant_amounts}
use gramoz.Orders.Lifecycle.{cancel_needs}
use gramoz.Orders.Walk.{
  done, next, cancels, Walk, here, then_to, steps, status_walks, walk_is_short,
}
use gramoz.Orders.Store.{update_order_status}
use gramoz.Orders.Status.{parse_status, update_status, set_status, move_order, announce}
use mathlib.Core.List.{Memᴰ}
use gramoz.Orders.Updates.{UpdateResult, update_is_all_or_nothing}
use gramoz.Orders.Stale.{Abandoned}
use gramoz.Orders.Points.{owed, cancel_returns_points}
use gramoz.Orders.Expiry.{
  process_stale_checkout_expiry, find_stale_unpaid_orders, insert_oldest, oldest_first, limit,
  expire_all,
}
use gramoz.Orders.Spared.{expiry_spares, stale_orders}
use gramoz.Examples.Shop.{busy, pending_order, delivered_order, db_of}

-- After the cancellation of the pending order by its customer.
abbrev calm : Db
calm = db_of (cancel_order_internal 2_000_000 500 false busy)

cancels_500 :
    cancel_order_internal 2_000_000 500 false busy ≡ ok (cancelled_row pending_order, calm)
unfolding ◌+ℤ◌ for_each refund_points create_transaction has_points_been_refunded decrement_usage
    get_order_items_for_restock transition_for_cancellation restore_product_stock
    restore_variant_stock create_inventory_transaction get_points_spent_on_order
    fail_pending_payments_for_order get_user_basic_info create_outbox_event cancel_order_internal
    cancel_found cancel_checked check_cancellable release_order restock_item restore_stock
    release_promo return_points notify_cancelled require_refund
cancels_500 = refl

by_customer : cancel_order 2_000_000 1 500 busy ≡ (ok (cancelled_row pending_order), calm)
unfolding ◌+ℤ◌ for_each refund_points create_transaction has_points_been_refunded decrement_usage
    get_order_items_for_restock transition_for_cancellation restore_product_stock
    restore_variant_stock create_inventory_transaction get_points_spent_on_order
    fail_pending_payments_for_order get_user_basic_info create_outbox_event cancel_order_internal
    cancel_found cancel_checked check_cancellable release_order restock_item restore_stock
    release_promo return_points notify_cancelled require_refund cancel_order check_owner
by_customer = refl

-- The expiry worker takes the pending order, which is over an hour old, and nothing else.
expires_500 : (process_stale_checkout_expiry 4_000_000 60 busy).0 ≡ 1
unfolding ◌+ℤ◌ for_each refund_points create_transaction has_points_been_refunded decrement_usage
    get_order_items_for_restock transition_for_cancellation restore_product_stock
    restore_variant_stock create_inventory_transaction get_points_spent_on_order
    fail_pending_payments_for_order get_user_basic_info create_outbox_event cancel_order_internal
    cancel_found cancel_checked check_cancellable release_order restock_item restore_stock
    release_promo return_points notify_cancelled require_refund expire_order
    process_stale_checkout_expiry find_stale_unpaid_orders insert_oldest oldest_first limit
    expire_all
expires_500 = refl

not_expiring : Expirable false pending_order
not_expiring e = ground (arith, e)

cancel_restocks_example :
    (after : Db) × (cancel_order_internal 2_000_000 500 false busy
      ≡ ok (cancelled_row pending_order, after))
    × (after.products
        ≡ bump product_table (product_amounts (get_order_items_for_restock 500 busy)) busy.products)
    × (after.variants
        ≡ bump variant_table (variant_amounts (get_order_items_for_restock 500 busy)) busy.variants)
    × (after.orders ≡ update (is_cancellable 500) cancelled_row busy.orders)
cancel_restocks_example =
    cancel_restocks 2_000_000 500 false busy pending_order refl refl not_expiring

cancel_once_example :
    run_transaction (cancel_order_internal 3_000_000 500 true) calm
    ≡ (err (invalid_operation already_cancelled), calm)
cancel_once_example =
    cancel_once 2_000_000 3_000_000 500 false true busy pending_order (cancelled_row pending_order)
      calm refl refl not_expiring cancels_500

cancel_needs_example :
    (o : Order) × (find_order_by_id 500 busy ≡ some o)
    × (cancellable o.status ≡ true)
    × Expirable false o
cancel_needs_example = cancel_needs 2_000_000 500 false busy cancels_500

status_walks_example :
    (c : Order) × (find_order_by_id 500 calm ≡ some c) × Walk OrderStatus.pending c.status
status_walks_example =
    status_walks 500 busy calm pending_order
      (next (cancels 2_000_000 1 500 (cancelled_row pending_order) by_customer) done) refl

may_cancel : allowed OrderStatus.pending OrderStatus.cancelled ≡ true
unfolding allowed order_state_transitions
may_cancel = refl

walk_is_short_example :
    (steps (then_to may_cancel here) ≤ 5)
    × (OrderStatus.pending ≡ OrderStatus.cancelled → steps (then_to may_cancel here) ≡ 0)
walk_is_short_example =
    walk_is_short OrderStatus.pending OrderStatus.cancelled (then_to may_cancel here)

cancel_returns_points_example :
    (after : Db) × (cancel_order_internal 2_000_000 500 false busy
      ≡ ok (cancelled_row pending_order, after))
    × (net_balance 1 after ≡ pos (owed 500 busy) +ℤ net_balance 1 busy)
    × ((user : ℕ) → (1 == user) ≡ false → net_balance user after ≡ net_balance user busy)
cancel_returns_points_example =
    cancel_returns_points 2_000_000 500 false busy pending_order refl refl not_expiring

expiry_spares_example :
    find_order_by_id 501 (process_stale_checkout_expiry 4_000_000 60 busy).1 ≡ some delivered_order
expiry_spares_example = expiry_spares 4_000_000 60 501 busy delivered_order refl refl

stale_orders_example :
    (length (find_stale_unpaid_orders 4_000_000 60 15 busy) ≤ 10)
    × ((o : Order)
        → Memᴰ o (find_stale_unpaid_orders 4_000_000 60 15 busy)
        → Abandoned 4_000_000 60 15 busy o)
stale_orders_example = stale_orders 4_000_000 60 15 busy

-- A pending order cannot be delivered at once.
refuses_delivery :
    update_status 2_000_000 500 "delivered" busy
    ≡ (err (invalid_operation invalid_transition), busy)
unfolding update_status parse_status set_status move_order allowed order_state_transitions
refuses_delivery = refl

abbrev in_work : Db
in_work = (update_status 2_000_000 500 "processing" busy).1

processes :
    update_status 2_000_000 500 "processing" busy
    ≡ (ok (record pending_order { status = OrderStatus.processing }), in_work)
unfolding update_status parse_status set_status move_order allowed order_state_transitions
    update_order_status announce
processes = refl

update_is_all_or_nothing_example :
    UpdateResult 500 "processing" busy
      (ok (record pending_order { status = OrderStatus.processing }))
      in_work
update_is_all_or_nothing_example =
    update_is_all_or_nothing 2_000_000 500 "processing" busy in_work
      (ok (record pending_order { status = OrderStatus.processing })) processes
