-- ===== src/Orders/Checkout/Conservation.antt =====
-- What a checkout takes from the stock is exactly what the new order's items say.
use mathlib.Core.Path.{fun_ext}
use native.Mathlib.Nat.{add_comm}
use gramoz.Common.{ℕ, ◌+◌, ◌≡◌, refl, ap, ◌∙◌, not, Option, none, some, List, [], ◌∷◌, map, arith}
use gramoz.Table.Stock.{
  bump, bump-zero, bump-add, bump-deduct, KeysAreUnique, update-KeysAreUnique, covers,
}
use gramoz.Schema.{Db}
use gramoz.Schema.Rows.{Order}
use gramoz.Tx.{throw_if, for_each, insufficient_stock_error, sold_out, ◌>>=◌}
use gramoz.Tx.Post.{Post, Post-bind, Post-weaken, Post-throw_if}
use gramoz.Orders.Store.{deduct_product_stock, deduct_variant_stock}
use gramoz.Orders.Stock.{
  product_table, variant_table, product_amount, product_amounts, variant_amount, variant_amounts,
}
use gramoz.Orders.Checkout.Lines.{Line, item_of, deduct_stock, deduct_line}

-- `b` comes from `a` by taking `f` from the products and `g` from the variants; the tables that the
-- rest of the checkout reads are as they were.
pub record Deducted (f g : ℕ → ℕ) (a b : Db) : Type 0 where
  pub products : bump product_table f b.products ≡ a.products
  pub variants : bump variant_table g b.variants ≡ a.variants
  pub product_keys : KeysAreUnique product_table b.products
  pub variant_keys : KeysAreUnique variant_table b.variants
  pub orders : b.orders ≡ a.orders
  pub items : b.order_items ≡ a.order_items
  pub idempotency : b.idempotency ≡ a.idempotency

deduct_stock-Deducted :
    (v : Option ℕ) (id n : ℕ) (db : Db)
    → KeysAreUnique product_table db.products
    → KeysAreUnique variant_table db.variants
    → Post
        (λ _ after. Deducted (product_amount v id n) (variant_amount v n) db after)
        ((deduct_stock v id n >>= λ updated.
            throw_if (not updated) (insufficient_stock_error sold_out))
          db)
unfolding deduct_stock deduct_product_stock deduct_variant_stock
deduct_stock-Deducted none id n db p v =
    Post-throw_if (λ _ after. Deducted (product_amount none id n) (variant_amount none n) db after)
      _ _ _
      λ e. record {
        products = bump-deduct product_table id n db.products p (ground (arith, e));
        variants = bump-zero variant_table db.variants;
        product_keys =
            update-KeysAreUnique product_table (covers product_table id n) _ db.products p;
        variant_keys = v;
        orders = refl;
        items = refl;
        idempotency = refl;
      }
deduct_stock-Deducted (some w) id n db p v =
    Post-throw_if
      (λ _ after. Deducted (product_amount (some w) id n) (variant_amount (some w) n) db after) _ _
      _
      λ e. record {
        products = bump-zero product_table db.products;
        variants = bump-deduct variant_table w n db.variants v (ground (arith, e));
        product_keys = p;
        variant_keys =
            update-KeysAreUnique variant_table (covers variant_table w n) _ db.variants v;
        orders = refl;
        items = refl;
        idempotency = refl;
      }

-- Taking one line and then the others.
Deducted-trans :
    (f f' g g' : ℕ → ℕ) (a b c : Db)
    → Deducted f g a b
    → Deducted f' g' b c
    → Deducted (λ k. f' k + f k) (λ k. g' k + g k) a c
Deducted-trans f f' g g' a b c p q = record {
  products =
      ap (λ h. bump product_table h c.products) (fun_ext λ k. add_comm (f' k) (f k))
      ∙ bump-add product_table f f' c.products
      ∙ ap (bump product_table f) q.products
      ∙ p.products;
  variants =
      ap (λ h. bump variant_table h c.variants) (fun_ext λ k. add_comm (g' k) (g k))
      ∙ bump-add variant_table g g' c.variants
      ∙ ap (bump variant_table g) q.variants
      ∙ p.variants;
  product_keys = q.product_keys;
  variant_keys = q.variant_keys;
  orders = q.orders ∙ p.orders;
  items = q.items ∙ p.items;
  idempotency = q.idempotency ∙ p.idempotency;
}

Deducted-refl :
    (db : Db)
    → KeysAreUnique product_table db.products
    → KeysAreUnique variant_table db.variants
    → Deducted (λ _. 0) (λ _. 0) db db
Deducted-refl db p v = record {
  products = bump-zero product_table db.products;
  variants = bump-zero variant_table db.variants;
  product_keys = p;
  variant_keys = v;
  orders = refl;
  items = refl;
  idempotency = refl;
}

-- The loop over the lines takes what the order's items add up to.
pub for_each-deduct :
    (o : Order) (ls : List Line) (db : Db)
    → KeysAreUnique product_table db.products
    → KeysAreUnique variant_table db.variants
    → Post
        (λ _ after.
          Deducted
            (product_amounts (map (item_of o) ls))
            (variant_amounts (map (item_of o) ls))
            db
            after)
        (for_each deduct_line ls db)
unfolding for_each deduct_line
for_each-deduct o [] db p v = Deducted-refl db p v
for_each-deduct o (l ∷ ls) db p v =
    Post-bind
      (λ _ mid.
        Deducted (product_amount l.variant_id l.product_id l.quantity)
          (variant_amount l.variant_id l.quantity) db mid)
      _ (deduct_line l) (λ _. for_each deduct_line ls) db
      (deduct_stock-Deducted l.variant_id l.product_id l.quantity db p v)
      λ _ mid d.
        Post-weaken _ _ (for_each deduct_line ls mid)
          (for_each-deduct o ls mid d.product_keys d.variant_keys)
          λ _ after e.
            Deducted-trans (product_amount l.variant_id l.product_id l.quantity)
              (product_amounts (map (item_of o) ls)) (variant_amount l.variant_id l.quantity)
              (variant_amounts (map (item_of o) ls)) db mid after d e
