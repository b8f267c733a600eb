-- ===== src/Orders/Checkout.antt =====
-- `createOrderFromCart` of server/src/modules/orders/orders.service.ts, step by step. The children
-- hold the steps; this file composes them. What the source takes from outside the repository is a
-- `Host`; the uuids that the database generates and the clock come with the request.
pub mod Input
pub mod Lines
pub mod Pricing
pub mod Idempotency
pub mod Conservation
pub mod Placed
pub mod Prepared
pub mod Undo
pub mod Retry
pub mod Amounts
use gramoz.Common.{
  ℕ, ◌+◌, String, Bool, true, false, not, ◌&&◌, Option, none, some, List, [], ◌∷◌, ◌++◌, map, ltb,
  ◌==◌, if◌then◌else◌, is_some, or_else, str_eq, length,
}
use gramoz.Table.{find, select, update, exists}
use gramoz.Schema.{Db}
use gramoz.Schema.Enums.{OrderStatus, OrderPaymentStatus, DeliveryMethod, home}
use gramoz.Schema.Rows.{
  Order, Address, User, OutboxPayload, send_order_confirmation, send_low_stock_alert,
  IdempotencyKey,
}
use gramoz.Tx.{
  Tx, Result, ok, err, pure, read, write, ◌>>=◌, ◌>>◌, throw_if, when, for_each, run_transaction,
  invalid_operation, insufficient_stock_error, other_error, cart_empty, insufficient_stock,
  promo_just_exhausted, unique_violation,
}
use gramoz.Loyalty.{spend_points}
use gramoz.Promos.{increment_usage}
use gramoz.Orders.Store.{get_user_basic_info}
use Input.{CreateOrderDto, Host, Request, non_empty, trimmed_key, request_hash}
use Lines.{
  Line, get_cart_items_with_products, all_covered, sort_lines, subtotal, deduct_line, record_lines,
  delete_checked_out, email_item,
}
use Pricing.{Totals, apply_promo, apply_points, calculate_charge}
use Idempotency.{Replay, replayed, fresh, check_idempotency, complete_idempotency}

-- The charge for `count` cart rows at half a kilogram each, if zone and method are given.
abbrev charge_for : CreateOrderDto → ℕ → Db → Result (Option ℕ)
charge_for dto count db = elim dto.zone_id [
  | none ↦ ok none
  | some z ↦ elim dto.delivery_method [
    | none ↦ ok none
    | some m ↦ elim (calculate_charge z m count db) [ err e ↦ err e | ok c ↦ ok (some c) ]
  ]
]

unfoldable pub precompute_delivery : Request → Db → Result (Option ℕ)
precompute_delivery r db =
    let count = length (select (λ i. i.user_id == r.user_id) db.cart_items) in
    if ltb 0 count then charge_for r.dto count db else ok none

unfoldable pub delivery_charge : CreateOrderDto → Option ℕ → ℕ → Tx ℕ
delivery_charge dto (some c) count db = ok (c, db)
delivery_charge dto none count db = elim (charge_for dto count db) [
  | err e ↦ err e
  | ok c ↦ ok (or_else c 0, db)
]

abbrev same_address : Request → Address → Bool
same_address r a =
    a.user_id == r.user_id && str_eq a.address_line1 r.dto.address_line1 && str_eq a.city r.dto.city

abbrev new_address_row : Request → Address
new_address_row r = record {
  id = r.new_address;
  user_id = r.user_id;
  address_line1 = r.dto.address_line1;
  city = r.dto.city;
  latitude = r.dto.latitude;
  longitude = r.dto.longitude;
  zone_id = r.dto.zone_id;
  is_default = false;
}

-- The id of the address that is found, completed with its zone, or created.
unfoldable pub resolve_address : Request → Tx ℕ
resolve_address r db = elim (find (same_address r) db.addresses) [
  | none ↦ ok (r.new_address, record db { addresses = new_address_row r ∷ db.addresses })
  | some a ↦
      if is_some r.dto.zone_id && not (is_some a.zone_id)
      then ok (
        a.id,
        record db {
          addresses =
              update (λ x. x.id == a.id) (λ x. record x { zone_id = r.dto.zone_id }) db.addresses;
        },
      )
      else ok (a.id, db)
]

abbrev key_taken : ℕ → Option String → Order → Bool
key_taken user none o = false
key_taken user (some k) o =
    o.user_id == user && elim o.idempotency_key [ none ↦ false | some j ↦ str_eq j k ]

-- The insert into `orders`; the index on user and key refuses a second order under one key.
unfoldable pub create_order : Order → Tx (Unit {0})
create_order o = do
  taken ← read (λ db. exists (key_taken o.user_id o.idempotency_key) db.orders)
  throw_if taken (other_error unique_violation)
  write (λ db. record db { orders = o ∷ db.orders })

abbrev pub order_row : Request → Option String → (address charge : ℕ) → Totals → Order
order_row r key address charge t = record {
  id = r.new_order;
  user_id = r.user_id;
  status = OrderStatus.pending;
  payment_status = OrderPaymentStatus.unpaid;
  total_amount = t.total + charge;
  delivery_charge = charge;
  delivery_method = or_else r.dto.delivery_method home;
  shipping_address_id = address;
  promo_id = t.promo;
  discount_amount = t.discount;
  idempotency_key = key;
  created_at = r.now;
}

-- Step 10
unfoldable pub use_promo : Option ℕ → ℕ → Tx (Unit {0})
use_promo none now = pure tt
use_promo (some id) now = do
  updated ← increment_usage id now
  throw_if (not updated) (invalid_operation promo_just_exhausted)

-- Step 11
unfoldable pub use_points : Request → Totals → Tx (Unit {0})
use_points r t =
    when (ltb 0 t.points_spent)
      (spend_points r.now r.user_id t.points_spent (some r.new_order) >>= λ _. pure tt)

-- Step 12
abbrev confirmation : Option User → Order → List Line → List OutboxPayload
confirmation none o ls = []
confirmation (some u) o ls =
    send_order_confirmation u.email u.full_name o.id (map email_item ls) o.total_amount ∷ []

unfoldable pub announce_order : Option User → Order → List Line → Db → Db
announce_order user o ls db = record db {
  outbox =
      confirmation user o ls ++ (send_low_stock_alert (map (λ l. l.product_id) ls) ∷ db.outbox);
}

unfoldable pub quote_order : Host → Request → List Line → Tx Totals
quote_order h r ls = do
  t ← apply_promo h.to_upper r.now (non_empty r.dto.promo_code) (subtotal ls)
  apply_points r.now r.ratio r.user_id r.dto.use_points t

-- Steps 10 and 11
unfoldable pub charge_customer : Request → Totals → Tx (Unit {0})
charge_customer r t = use_promo t.promo r.now >> use_points r t

-- What steps 3 to 6 prepare.
pub record Draft : Type 0 where
  pub lines : List Line
  pub user : Option User
  pub totals : Totals
  pub order : Order

-- Steps 8 to 13
unfoldable pub finish_order :
    Request → Option String → Option IdempotencyKey → Draft → Tx (Unit {0})
finish_order r key existing d = do
  write (record_lines d.order d.lines)
  write (delete_checked_out r.user_id d.lines)
  charge_customer r d.totals
  write (announce_order d.user d.order d.lines)
  write (complete_idempotency key existing d.order.id)

-- The insert of the order, step 7, and the rest.
unfoldable pub commit_order : Request → Option String → Option IdempotencyKey → Draft → Tx Order
commit_order r key existing d = do
  create_order d.order
  for_each deduct_line d.lines
  finish_order r key existing d
  pure d.order

-- The end of step 6: totals, delivery charge and address make the order's row.
unfoldable pub draft_order : Host → Request → Option ℕ → List Line → Option User → Tx Draft
draft_order h r precomputed ls user = do
  t ← quote_order h r ls
  charge ← delivery_charge r.dto precomputed (length ls)
  address ← resolve_address r
  pure (record {
    lines = ls;
    user = user;
    totals = t;
    order = order_row r (trimmed_key h r) address charge t;
  })

-- Steps 3 to 6
unfoldable pub prepare_order : Host → Request → Option ℕ → Tx Draft
prepare_order h r precomputed = do
  items ← read (get_cart_items_with_products r.user_id)
  user ← read (get_user_basic_info r.user_id)
  throw_if (length items == 0) (invalid_operation cart_empty)
  throw_if (not (all_covered items)) (insufficient_stock_error insufficient_stock)
  draft_order h r precomputed (sort_lines h.before items) user

unfoldable pub place_order : Host → Request → Option ℕ → Option IdempotencyKey → Tx Order
place_order h r precomputed existing = do
  d ← prepare_order h r precomputed
  commit_order r (trimmed_key h r) existing d

unfoldable pub proceed : Host → Request → Option ℕ → Replay → Tx Order
proceed h r precomputed (replayed o) = pure o
proceed h r precomputed (fresh existing) = place_order h r precomputed existing

-- The callback of the transaction.
unfoldable pub checkout : Host → Request → Option ℕ → Tx Order
checkout h r precomputed =
    check_idempotency r.new_key r.now r.user_id (trimmed_key h r) (request_hash h r.dto)
    >>= proceed h r precomputed

unfoldable pub create_order_from_cart : Host → Request → Db → Result Order × Db
create_order_from_cart h r db = elim (precompute_delivery r db) [
  | err e ↦ (err e, db)
  | ok precomputed ↦ run_transaction (checkout h r precomputed) db
]
