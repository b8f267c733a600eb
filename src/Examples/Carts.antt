-- ===== src/Examples/Carts.antt =====
-- A cart in the example shop.
use gramoz.Common.{◌≡◌, refl, some, none, false}
use gramoz.Schema.{Db}
use gramoz.Schema.Rows.{CartItem}
use gramoz.Tx.{ok}
use gramoz.Cart.{
  AddToCartDto, add_item, check_addable, max_stock_for_add, place_item, upsert_cart_item, put_item,
}
use gramoz.Cart.Basket.{BasketOp, Indexed, Refines}
use gramoz.Cart.Refinement.{adds, asked, cart_simulates_basket}
use gramoz.Examples.Shop.{shop, db_of}

-- Two more jars of a product that is in the cart.
abbrev two_jars : AddToCartDto
two_jars = record { product_id = 10; variant_id = none; quantity = 2 }

abbrev fuller : Db
fuller = db_of (add_item 33 1 two_jars shop)

abbrev merged : CartItem
merged = record {
  id = 30;
  user_id = 1;
  product_id = 10;
  variant_id = none;
  quantity = 4;
  abandoned_email_sent = false;
}

adds_two : add_item 33 1 two_jars shop ≡ ok (merged, fuller)
unfolding add_item check_addable max_stock_for_add place_item upsert_cart_item put_item
adds_two = refl

indexed : Indexed shop
indexed = record { ids = (refl, (refl, (refl, tt))); slots = (refl, (refl, (refl, tt))) }

cart_simulates_basket_example :
    (op : BasketOp) × (asked {a = shop} {b = fuller} (adds 33 1 two_jars merged refl adds_two)
      ≡ some op)
    × Refines op shop fuller
cart_simulates_basket_example =
    cart_simulates_basket shop fuller indexed (adds 33 1 two_jars merged refl adds_two)
