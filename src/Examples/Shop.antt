-- ===== src/Examples/Shop.antt =====
-- A shop with two users, two products of which one has a variant, a promotion of ten percent and a
-- cart; the concrete `Host` and requests.
use gramoz.Common.{true, false, none, some, [], ◌∷◌, leb}
use gramoz.Common.Int.{pos, negsuc}
use gramoz.Schema.{Db}
use gramoz.Schema.Enums.{percentage, home, earned_review_text}
use gramoz.Schema.Enums.{OrderStatus, OrderPaymentStatus, spent_checkout}
use gramoz.Schema.Rows.{Order, Promo, LoyaltyPoint}
use gramoz.Tx.{Result, ok, err}
use gramoz.Orders.Checkout.Input.{CreateOrderDto, Host, Request}

abbrev pub host : Host
host = record { trim = λ s. s; to_upper = λ s. s; sha256 = λ p. p.address_line1; before = leb }

abbrev pub dto : CreateOrderDto
dto = record {
  address_line1 = "Road 7";
  city = "Dhaka";
  phone = "01700000000";
  promo_code = some "TEN";
  use_points = true;
  latitude = none;
  longitude = none;
  zone_id = some 3;
  delivery_method = some home;
  idempotency_key = none;
}

abbrev pub request : Request
request = record {
  user_id = 1;
  dto = dto;
  header_key = some "key-1";
  now = 1_000_000;
  ratio = 10;
  new_order = 900;
  new_address = 901;
  new_key = 902;
}

-- The same request sent again, later, with other ids.
abbrev pub resent : Request
resent = record request { now = 1_005_000; new_order = 910; new_address = 911; new_key = 912 }

-- The same key with another address.
abbrev pub altered : Request
altered = record resent { dto = record dto { address_line1 = "Road 8" } }

abbrev pub promo : Promo
promo = record {
  id = 40;
  code = "TEN";
  discount_type = percentage;
  discount_value = 1000;
  min_order_value = some 5000;
  max_uses = some 3;
  current_uses = 2;
  expires_at = some 2_000_000;
  is_active = true;
}

abbrev pub earned : LoyaltyPoint
earned = record {
  user_id = 1;
  points = pos 75;
  point_type = earned_review_text;
  reference_id = some 77;
  valid_until = some 5_000_000;
}

abbrev pub shop : Db
shop = record {
  orders = [];
  order_items = [];
  products =
      record { id = 10; name = "Honey"; price = 45_000; stock = 5; status = "active" }
      ∷ record { id = 11; name = "Ghee"; price = 90_000; stock = 2; status = "active" }
      ∷ [];
  variants = record { id = 20; product_id = 11; price = 50_000; stock = 4 } ∷ [];
  promos = promo ∷ [];
  loyalty = earned ∷ [];
  payments = [];
  refunds = [];
  inventory = [];
  outbox = [];
  cart_items =
      record {
        id = 31;
        user_id = 1;
        product_id = 11;
        variant_id = some 20;
        quantity = 1;
        abandoned_email_sent = false;
      }
      ∷ record {
        id = 30;
        user_id = 1;
        product_id = 10;
        variant_id = none;
        quantity = 2;
        abandoned_email_sent = false;
      }
      ∷ record {
        id = 32;
        user_id = 2;
        product_id = 10;
        variant_id = none;
        quantity = 1;
        abandoned_email_sent = false;
      }
      ∷ [];
  idempotency = [];
  addresses = [];
  zones = record { id = 3; home_delivery_charge = 6000; branch_pickup_charge = 4000 } ∷ [];
  users =
      record { id = 1; email = "a@x.bd"; full_name = "A"; phone = some "01700000000" }
      ∷ record { id = 2; email = "b@x.bd"; full_name = "B"; phone = none }
      ∷ [];
}

-- What a run that succeeds gives.
abbrev pub result_of : {A : Type 0} → A → Result (A × Db) → A
result_of a (ok r) = r.0
result_of a (err e) = a

abbrev pub db_of : {A : Type 0} → Result (A × Db) → Db
db_of (ok r) = r.1
db_of (err e) = shop

abbrev pub committed : {A : Type 0} → Result A × Db → Db
committed r = r.1

-- An order of two jars that was paid for with 20 points.
abbrev pub pending_order : Order
pending_order = record {
  id = 500;
  user_id = 1;
  status = OrderStatus.pending;
  payment_status = OrderPaymentStatus.unpaid;
  total_amount = 94_000;
  delivery_charge = 6000;
  delivery_method = home;
  shipping_address_id = 7;
  promo_id = some 40;
  discount_amount = 2000;
  idempotency_key = none;
  created_at = 100_000;
}

abbrev pub delivered_order : Order
delivered_order = record pending_order { id = 501; status = OrderStatus.delivered }

-- The shop with both orders.
abbrev pub busy : Db
busy = record shop {
  orders = pending_order ∷ delivered_order ∷ [];
  order_items =
      record {
        order_id = 500;
        product_id = 10;
        variant_id = none;
        quantity = 2;
        unit_price = 45_000;
      }
      ∷ [];
  loyalty =
      record {
        user_id = 1;
        points = negsuc 19;
        point_type = spent_checkout;
        reference_id = some 500;
        valid_until = none;
      }
      ∷ earned
      ∷ [];
}
