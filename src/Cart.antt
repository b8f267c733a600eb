-- ===== src/Cart.antt =====
-- The shopping cart: server/src/modules/cart/cart.service.ts and cart.store.ts. An id that the
-- database gives a new row comes with the call.
pub mod Basket
pub mod Refinement
use gramoz.Common.{
  ℕ, ◌+◌, ◌*◌, String, Bool, true, false, not, ◌&&◌, Option, none, some, List, [], ◌∷◌, map, ltb,
  leb, ◌==◌, if◌then◌else◌, str_eq, or_else, length,
}
use gramoz.Table.{find, select, update, delete, sum_by}
use gramoz.Schema.{Db}
use gramoz.Schema.Rows.{CartItem, Product, ProductVariant}
use gramoz.Tx.{
  Tx, Result, ok, err, pure, read, write, ◌>>=◌, ◌>>◌, throw_if, or_throw, entity_not_found,
  invalid_operation, insufficient_stock_error, quantity_not_positive, product_not_found,
  product_unavailable, variant_not_found, variant_of_other, stock_exceeded, cart_item_not_found,
}
use gramoz.Orders.Store.{product_id_is, variant_id_is}
use gramoz.Orders.Checkout.Lines.{Line, get_cart_items_with_products, unit_price}

pub record AddToCartDto : Type 0 where
  pub product_id : ℕ
  pub variant_id : Option ℕ
  pub quantity : ℕ

pub record CartSummary : Type 0 where
  pub items : List Line
  pub subtotal : ℕ
  pub item_count : ℕ

unfoldable pub get_cart : ℕ → Db → CartSummary
get_cart user db =
    let items = get_cart_items_with_products user db in
    record {
      items = items;
      subtotal = sum_by (λ l. unit_price l * l.quantity) items;
      item_count = length items;
    }

-- Two nulls are not distinct in the unique index.
abbrev pub same_variant : Option ℕ → Option ℕ → Bool
same_variant none none = true
same_variant (some v) (some w) = v == w
same_variant _ _ = false

-- The unique index on user, product and variant.
abbrev pub in_slot : (user product : ℕ) → Option ℕ → CartItem → Bool
in_slot user product variant i =
    i.user_id == user && (i.product_id == product && same_variant i.variant_id variant)

abbrev pub is_item : (id user : ℕ) → CartItem → Bool
is_item id user i = i.id == id && i.user_id == user

-- The variant's stock if there is a variant, which must be the product's.
unfoldable pub max_stock_for_add : Option ℕ → Product → Tx ℕ
max_stock_for_add none product = pure product.stock
max_stock_for_add (some v) product = do
  variant ←
      or_throw (← read (λ db. find (variant_id_is v) db.variants))
        (entity_not_found variant_not_found)
  throw_if (not (variant.product_id == product.id)) (invalid_operation variant_of_other)
  pure variant.stock

abbrev pub new_item : (id user : ℕ) → AddToCartDto → CartItem
new_item id user dto = record {
  id = id;
  user_id = user;
  product_id = dto.product_id;
  variant_id = dto.variant_id;
  quantity = dto.quantity;
  abandoned_email_sent = false;
}

abbrev pub more : ℕ → CartItem → CartItem
more n i = record i { quantity = i.quantity + n; abandoned_email_sent = false }

-- The row on which the insert conflicts.
abbrev pub conflicting : ℕ → AddToCartDto → Db → Option CartItem
conflicting user dto db = find (in_slot user dto.product_id dto.variant_id) db.cart_items

-- `upsertCartItem` after the conflict test: `none` if the sum would pass the ceiling.
unfoldable pub put_item :
    (id user : ℕ) → AddToCartDto → (max_stock : ℕ) → Option CartItem → Tx (Option CartItem)
put_item id user dto max_stock none =
    write (λ db. record db { cart_items = new_item id user dto ∷ db.cart_items })
    >> pure (some (new_item id user dto))
put_item id user dto max_stock (some old) =
    if leb (old.quantity + dto.quantity) max_stock
    then (write (λ db. record db {
      cart_items =
          update (in_slot user dto.product_id dto.variant_id) (more dto.quantity) db.cart_items;
    })
        >> pure (some (more dto.quantity old)))
    else pure none

unfoldable pub upsert_cart_item :
    (id user : ℕ) → AddToCartDto → (max_stock : ℕ) → Tx (Option CartItem)
upsert_cart_item id user dto max_stock =
    read (conflicting user dto) >>= put_item id user dto max_stock

-- The checks of `addItem`, which give the ceiling.
unfoldable pub check_addable : AddToCartDto → Tx ℕ
check_addable dto = do
  throw_if (dto.quantity == 0) (invalid_operation quantity_not_positive)
  product ←
      or_throw (← read (λ db. find (product_id_is dto.product_id) db.products))
        (entity_not_found product_not_found)
  throw_if (not (str_eq product.status "active")) (invalid_operation product_unavailable)
  max_stock ← max_stock_for_add dto.variant_id product
  throw_if (ltb max_stock dto.quantity) (insufficient_stock_error stock_exceeded)
  pure max_stock

unfoldable pub place_item : (id user : ℕ) → AddToCartDto → (max_stock : ℕ) → Tx CartItem
place_item id user dto max_stock = do
  item ← upsert_cart_item id user dto max_stock
  or_throw item (insufficient_stock_error stock_exceeded)

unfoldable pub add_item : (id user : ℕ) → AddToCartDto → Tx CartItem
add_item id user dto = check_addable dto >>= place_item id user dto

-- A variant that is gone leaves the product's stock as the limit.
unfoldable pub max_stock_for_update : Option ℕ → Product → Db → ℕ
max_stock_for_update none product db = product.stock
max_stock_for_update (some v) product db = elim (find (variant_id_is v) db.variants) [
  | none ↦ product.stock
  | some variant ↦ variant.stock
]

abbrev pub with_quantity : ℕ → CartItem → CartItem
with_quantity n i = record i { quantity = n; abandoned_email_sent = false }

-- `updateCartItemQuantity` with a user
unfoldable pub update_cart_item_quantity : (id quantity user : ℕ) → Tx (Option CartItem)
update_cart_item_quantity id quantity user = do
  write (λ db. record db {
    cart_items = update (is_item id user) (with_quantity quantity) db.cart_items;
  })
  read (λ db. find (is_item id user) db.cart_items)

unfoldable pub update_item : (user id quantity : ℕ) → Tx (Option CartItem)
update_item user id quantity = do
  throw_if (quantity == 0) (invalid_operation quantity_not_positive)
  item ←
      or_throw (← read (λ db. find (is_item id user) db.cart_items))
        (entity_not_found cart_item_not_found)
  product ←
      or_throw (← read (λ db. find (product_id_is item.product_id) db.products))
        (entity_not_found product_not_found)
  max_stock ← read (max_stock_for_update item.variant_id product)
  throw_if (ltb max_stock quantity) (insufficient_stock_error stock_exceeded)
  update_cart_item_quantity id quantity user

unfoldable pub remove_item : (user id : ℕ) → Tx (Unit {0})
remove_item user id = do
  item ←
      or_throw (← read (λ db. find (is_item id user) db.cart_items))
        (entity_not_found cart_item_not_found)
  write (λ db. record db { cart_items = delete (is_item id user) db.cart_items })

unfoldable pub clear_cart : (user : ℕ) → Tx (Unit {0})
clear_cart user =
    write (λ db. record db { cart_items = delete (λ i. i.user_id == user) db.cart_items })
