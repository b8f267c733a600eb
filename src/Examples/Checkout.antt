-- ===== src/Examples/Checkout.antt =====
-- Checkouts in the example shop.
use gramoz.Common.{none, some, ◌∷◌, [], ◌≡◌, refl, map, length}
use gramoz.Common.Int.{◌+ℤ◌}
use gramoz.Schema.{Db}
use gramoz.Schema.Enums.{OrderStatus, OrderPaymentStatus, home}
use gramoz.Schema.Rows.{Order}
use gramoz.Tx.{ok, err, for_each, invalid_operation, key_reused}
use gramoz.Loyalty.{
  spend_points, get_available_balance, net_balance, valid_earned, create_transaction,
}
use gramoz.Promos.{validate, raw_discount, increment_usage}
use gramoz.Orders.Store.{
  deduct_product_stock, deduct_variant_stock, get_user_basic_info, cancelled_row,
}
use gramoz.Orders.Cancel.{cancel_order}
use gramoz.Orders.Checkout.Input.{trimmed_key, request_hash}
use gramoz.Orders.Checkout.Lines.{
  get_cart_items_with_products, all_covered, sort_lines, insert_line, subtotal, deduct_stock,
  deduct_line, record_lines, delete_checked_out,
}
use gramoz.Orders.Checkout.Pricing.{apply_promo, redeem, apply_points, calculate_charge, charge_of}
use gramoz.Orders.Checkout.Idempotency.{check_idempotency, use_key, complete_idempotency}
use gramoz.Orders.Checkout.{
  precompute_delivery, delivery_charge, resolve_address, create_order, use_promo, use_points,
  announce_order, quote_order, charge_customer, finish_order, commit_order, draft_order,
  prepare_order, place_order, proceed, checkout,
}
use gramoz.Orders.Checkout.Undo.{checkout_then_cancel}
use gramoz.Orders.Checkout.Retry.{retry_returns_order, conflict_is_refused}
use gramoz.Examples.Shop.{host, request, resent, altered, shop, db_of}

-- 140,000 less ten percent, less 75 points at ten to the unit, and 60.00 for delivery.
abbrev bought : Order
bought = record {
  id = 900;
  user_id = 1;
  status = OrderStatus.pending;
  payment_status = OrderPaymentStatus.unpaid;
  total_amount = 131_250;
  delivery_charge = 6000;
  delivery_method = home;
  shipping_address_id = 901;
  promo_id = some 40;
  discount_amount = 14_750;
  idempotency_key = some "key-1";
  created_at = 1_000_000;
}

abbrev mid : Db
mid = db_of (checkout host request (some 6000) shop)

abbrev placed : Db
placed = db_of (place_order host request (some 6000) none shop)

buys : checkout host request (some 6000) shop ≡ ok (bought, mid)
unfolding ◌+ℤ◌ for_each spend_points get_available_balance net_balance valid_earned
    create_transaction validate raw_discount increment_usage deduct_product_stock
    deduct_variant_stock get_user_basic_info trimmed_key request_hash get_cart_items_with_products
    all_covered sort_lines insert_line subtotal deduct_stock deduct_line record_lines
    delete_checked_out apply_promo redeem apply_points calculate_charge charge_of check_idempotency
    use_key complete_idempotency precompute_delivery delivery_charge resolve_address create_order
    use_promo use_points announce_order quote_order charge_customer finish_order commit_order
    draft_order prepare_order place_order proceed checkout
buys = refl

places : place_order host request (some 6000) none shop ≡ ok (bought, placed)
unfolding ◌+ℤ◌ for_each spend_points get_available_balance net_balance valid_earned
    create_transaction validate raw_discount increment_usage deduct_product_stock
    deduct_variant_stock get_user_basic_info trimmed_key request_hash get_cart_items_with_products
    all_covered sort_lines insert_line subtotal deduct_stock deduct_line record_lines
    delete_checked_out apply_promo redeem apply_points calculate_charge charge_of check_idempotency
    use_key complete_idempotency precompute_delivery delivery_charge resolve_address create_order
    use_promo use_points announce_order quote_order charge_customer finish_order commit_order
    draft_order prepare_order place_order proceed checkout
places = refl

-- The second of the last promotion's uses is taken, and the variant's stock falls.
leaves_stock :
    (map (λ p. p.stock) mid.products ≡ 3 ∷ 2 ∷ [])
    × (map (λ v. v.stock) mid.variants ≡ 3 ∷ [])
    × (length mid.cart_items ≡ 1)
unfolding ◌+ℤ◌ for_each spend_points get_available_balance net_balance valid_earned
    create_transaction validate raw_discount increment_usage deduct_product_stock
    deduct_variant_stock get_user_basic_info trimmed_key request_hash get_cart_items_with_products
    all_covered sort_lines insert_line subtotal deduct_stock deduct_line record_lines
    delete_checked_out apply_promo redeem apply_points calculate_charge charge_of check_idempotency
    use_key complete_idempotency precompute_delivery delivery_charge resolve_address create_order
    use_promo use_points announce_order quote_order charge_customer finish_order commit_order
    draft_order prepare_order place_order proceed checkout
leaves_stock = (refl, refl, refl)

checkout_then_cancel_example :
    (after : Db) × (cancel_order 1_600_000 1 900 placed ≡ (ok (cancelled_row bought), after))
    × (after.products ≡ shop.products)
    × (after.variants ≡ shop.variants)
checkout_then_cancel_example =
    checkout_then_cancel host request (some 6000) none 1_600_000 shop placed bought
      (refl, (refl, tt)) (refl, tt) refl places

retry_returns_order_example : checkout host resent none mid ≡ ok (bought, mid)
unfolding trimmed_key
retry_returns_order_example =
    retry_returns_order host request resent (some 6000) none "key-1" bought shop mid
      (refl, (refl, tt)) (refl, tt) refl refl buys refl refl refl

conflict_is_refused_example : checkout host altered none mid ≡ err (invalid_operation key_reused)
unfolding trimmed_key request_hash
conflict_is_refused_example =
    conflict_is_refused host request altered (some 6000) none "key-1" bought shop mid
      (refl, (refl, tt)) (refl, tt) refl refl buys refl refl refl
