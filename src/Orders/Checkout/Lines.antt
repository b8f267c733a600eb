-- ===== src/Orders/Checkout/Lines.antt =====
-- The lines of a cart at checkout: server/src/modules/orders/orders.store.ts
-- (getCartItemsWithProducts, deleteCartItemsByIds) and the steps of `createOrderFromCart` that go
-- over the lines, in orders.service.ts.
use gramoz.Common.{
  ℕ, ◌*◌, String, Bool, true, false, not, ◌&&◌, Option, none, some, List, [], ◌∷◌, ◌++◌, map, ltb,
  ◌==◌, if◌then◌else◌, or_else,
}
use gramoz.Table.{find, select, delete, sum_by}
use gramoz.Schema.{Db}
use gramoz.Schema.Enums.{outward}
use gramoz.Schema.Rows.{Order, OrderItem, ProductVariant, InventoryTransaction, CartItem, EmailItem}
use gramoz.Tx.{Tx, ◌>>=◌, throw_if, insufficient_stock_error, sold_out}
use gramoz.Orders.Store.{product_id_is, variant_id_is, deduct_product_stock, deduct_variant_stock}

-- `OrderCartItem`; the columns of a join that found nothing are `none`.
pub record Line : Type 0 where
  pub id : ℕ
  pub product_id : ℕ
  pub quantity : ℕ
  pub product_price : Option ℕ
  pub product_stock : Option ℕ
  pub product_name : Option String
  pub variant_id : Option ℕ
  pub variant_price : Option ℕ
  pub variant_stock : Option ℕ

abbrev field {ℓ} : {A B : Type ℓ} → (A → B) → Option A → Option B
field f none = none
field f (some a) = some (f a)

abbrev find_variant : Option ℕ → Db → Option ProductVariant
find_variant none db = none
find_variant (some v) db = find (variant_id_is v) db.variants

abbrev join : Db → CartItem → Line
join db item =
    let product = find (product_id_is item.product_id) db.products in
    let variant = find_variant item.variant_id db in
    record {
      id = item.id;
      product_id = item.product_id;
      quantity = item.quantity;
      product_price = field (λ p. p.price) product;
      product_stock = field (λ p. p.stock) product;
      product_name = field (λ p. p.name) product;
      variant_id = item.variant_id;
      variant_price = field (λ v. v.price) variant;
      variant_stock = field (λ v. v.stock) variant;
    }

unfoldable pub get_cart_items_with_products : ℕ → Db → List Line
get_cart_items_with_products user db = map (join db) (select (λ i. i.user_id == user) db.cart_items)

-- Step 4: the stock that a line sees.
abbrev pub available : Line → ℕ
available l = elim l.variant_id [
  | none ↦ or_else l.product_stock 0
  | some _ ↦ or_else l.variant_stock 0
]

unfoldable pub all_covered : List Line → Bool
all_covered [] = true
all_covered (l ∷ ls) = not (ltb (available l) l.quantity) && all_covered ls

-- Step 5: the order in which rows are locked. `before a b` is `a.localeCompare(b) <= 0`.
abbrev pub lock_id : Line → ℕ
lock_id l = or_else l.variant_id l.product_id

unfoldable pub insert_line : (ℕ → ℕ → Bool) → Line → List Line → List Line
insert_line before l [] = l ∷ []
insert_line before l (x ∷ xs) =
    if before (lock_id l) (lock_id x) then l ∷ x ∷ xs else x ∷ insert_line before l xs

unfoldable pub sort_lines : (ℕ → ℕ → Bool) → List Line → List Line
unfolding insert_line
sort_lines before [] = []
sort_lines before (l ∷ ls) = insert_line before l (sort_lines before ls)

-- `variantPrice ?? productPrice ?? '0'`
abbrev pub unit_price : Line → ℕ
unit_price l = or_else l.variant_price (or_else l.product_price 0)

-- Step 6, its first sum.
unfoldable pub subtotal : List Line → ℕ
subtotal ls = sum_by (λ l. unit_price l * l.quantity) ls

-- Step 7: the variant's stock if the line has one, else the product's.
unfoldable pub deduct_stock : Option ℕ → (product_id quantity : ℕ) → Tx Bool
deduct_stock none product_id quantity = deduct_product_stock product_id quantity
deduct_stock (some v) product_id quantity = deduct_variant_stock v quantity

-- One round of its loop.
unfoldable pub deduct_line : Line → Tx (Unit {0})
unfolding deduct_stock
deduct_line l = do
  updated ← deduct_stock l.variant_id l.product_id l.quantity
  throw_if (not updated) (insufficient_stock_error sold_out)

-- Step 8: the rows to insert.
abbrev pub item_of : Order → Line → OrderItem
item_of order l = record {
  order_id = order.id;
  product_id = l.product_id;
  variant_id = l.variant_id;
  quantity = l.quantity;
  unit_price = unit_price l;
}

abbrev pub inventory_of : Order → Line → InventoryTransaction
inventory_of order l = record {
  product_id = l.product_id;
  transaction_type = outward;
  quantity = l.quantity;
  reference_id = some order.id;
}

unfoldable pub record_lines : Order → List Line → Db → Db
record_lines order ls db = record db {
  order_items = map (item_of order) ls ++ db.order_items;
  inventory = map (inventory_of order) ls ++ db.inventory;
}

-- Step 9
abbrev has_line : List Line → CartItem → Bool
has_line [] item = false
has_line (l ∷ ls) item = if l.id == item.id then true else has_line ls item

unfoldable pub delete_checked_out : ℕ → List Line → Db → Db
delete_checked_out user ls db = record db {
  cart_items = delete (λ i. i.user_id == user && has_line ls i) db.cart_items;
}

-- The lines of the confirmation mail.
abbrev pub email_item : Line → EmailItem
email_item l = record {
  product_name = or_else l.product_name "Product";
  quantity = l.quantity;
  unit_price = or_else l.product_price 0;
}
