-- ===== src/Orders/Stock.antt =====
-- Products and variants as tables of stock, and what a list of items adds to each.
use gramoz.Common.{ℕ, ◌+◌, ◌≡◌, refl, sym, ◌∙◌, ap, Option, none, some, List, [], ◌∷◌}
use gramoz.Table.Stock.{StockTable, bump, bump-zero, bump-add, update-bump, at}
use gramoz.Schema.{Db}
use gramoz.Schema.Rows.{Product, ProductVariant, OrderItem}
use gramoz.Tx.{write, for_each, ok}
use gramoz.Orders.Store.{restore_product_stock, restore_variant_stock, create_inventory_transaction}
use gramoz.Orders.Cancel.{restock_item, restore_stock}

abbrev pub product_table : StockTable Product
product_table = record {
  key = λ p. p.id;
  stock = λ p. p.stock;
  put = λ n p. record p { stock = n };
  key-put = λ n p. refl;
  stock-put = λ n p. refl;
  put-put = λ m n p. refl;
  put-stock = λ p. refl;
}

abbrev pub variant_table : StockTable ProductVariant
variant_table = record {
  key = λ v. v.id;
  stock = λ v. v.stock;
  put = λ n v. record v { stock = n };
  key-put = λ n v. refl;
  stock-put = λ n v. refl;
  put-put = λ m n v. refl;
  put-stock = λ v. refl;
}

-- What one item adds to the stock of each product: something if it has no variant.
abbrev pub product_amount : Option ℕ → (product_id quantity : ℕ) → ℕ → ℕ
product_amount none product_id quantity = at product_table product_id quantity
product_amount (some v) product_id quantity = λ _. 0

abbrev pub product_amounts : List OrderItem → ℕ → ℕ
product_amounts [] k = 0
product_amounts (i ∷ is) k =
    product_amounts is k + product_amount i.variant_id i.product_id i.quantity k

-- What one item adds to the stock of each variant.
abbrev pub variant_amount : Option ℕ → (quantity : ℕ) → ℕ → ℕ
variant_amount none quantity = λ _. 0
variant_amount (some v) quantity = at variant_table v quantity

abbrev pub variant_amounts : List OrderItem → ℕ → ℕ
variant_amounts [] k = 0
variant_amounts (i ∷ is) k = variant_amounts is k + variant_amount i.variant_id i.quantity k

unfoldable pub restock_all : ℕ → List OrderItem → Db → Db
restock_all order_id [] db = db
restock_all order_id (i ∷ is) db = restock_all order_id is (restock_item order_id i db)

-- The loop always ends well.
pub for_each-restock :
    (order_id : ℕ) (is : List OrderItem) (db : Db)
    → for_each (λ i. write (restock_item order_id i)) is db ≡ ok (tt, restock_all order_id is db)
unfolding restock_all for_each
for_each-restock order_id [] db = refl
for_each-restock order_id (i ∷ is) db = for_each-restock order_id is (restock_item order_id i db)

products-restore_stock :
    (v : Option ℕ) (product_id quantity : ℕ) (db : Db)
    → (restore_stock v product_id quantity db).products
      ≡ bump product_table (product_amount v product_id quantity) db.products
unfolding restore_stock restore_product_stock restore_variant_stock
products-restore_stock none product_id quantity db =
    update-bump product_table product_id quantity db.products
products-restore_stock (some v) product_id quantity db = sym (bump-zero product_table db.products)

variants-restore_stock :
    (v : Option ℕ) (product_id quantity : ℕ) (db : Db)
    → (restore_stock v product_id quantity db).variants
      ≡ bump variant_table (variant_amount v quantity) db.variants
unfolding restore_stock restore_product_stock restore_variant_stock
variants-restore_stock none product_id quantity db = sym (bump-zero variant_table db.variants)
variants-restore_stock (some v) product_id quantity db =
    update-bump variant_table v quantity db.variants

-- Restocking adds to each product what the items without variants say, and nothing else.
pub products-restock_all :
    (order_id : ℕ) (is : List OrderItem) (db : Db)
    → (restock_all order_id is db).products ≡ bump product_table (product_amounts is) db.products
unfolding restock_all restock_item create_inventory_transaction
products-restock_all order_id [] db = sym (bump-zero product_table db.products)
products-restock_all order_id (i ∷ is) db =
    products-restock_all order_id is (restock_item order_id i db)
    ∙ ap (bump product_table (product_amounts is))
        (products-restore_stock i.variant_id i.product_id i.quantity db)
    ∙ sym (
        bump-add product_table (product_amounts is)
          (product_amount i.variant_id i.product_id i.quantity) db.products)

pub variants-restock_all :
    (order_id : ℕ) (is : List OrderItem) (db : Db)
    → (restock_all order_id is db).variants ≡ bump variant_table (variant_amounts is) db.variants
unfolding restock_all restock_item create_inventory_transaction
variants-restock_all order_id [] db = sym (bump-zero variant_table db.variants)
variants-restock_all order_id (i ∷ is) db =
    variants-restock_all order_id is (restock_item order_id i db)
    ∙ ap (bump variant_table (variant_amounts is))
        (variants-restore_stock i.variant_id i.product_id i.quantity db)
    ∙ sym (
        bump-add variant_table (variant_amounts is) (variant_amount i.variant_id i.quantity)
          db.variants)
