-- ===== src/Orders/Checkout/Placed.antt =====
-- What a successful checkout leaves in the tables of orders, items, stock and idempotency keys.
use gramoz.Common.{
  ℕ, ◌≡◌, refl, ap, ◌∙◌, sym, subst, String, Option, none, some, ◌∷◌, ◌++◌, map, arith, ◌==◌, ltb,
}
use gramoz.Table.{update}
use gramoz.Table.Stock.{bump, KeysAreUnique}
use gramoz.Schema.{Db}
use gramoz.Schema.Rows.{Order, IdempotencyKey}
use gramoz.Tx.{Tx, write, pure, for_each, ◌>>=◌, ◌>>◌}
use gramoz.Tx.Post.{Post, Post-bind, Post-weaken, Post-when}
use gramoz.Loyalty.{spend_points, create_transaction}
use gramoz.Promos.{increment_usage}
use gramoz.Orders.Goods.{SameGoods, SameGoods-refl, SameGoods-trans}
use gramoz.Orders.Stock.{product_table, variant_table, product_amounts, variant_amounts}
use gramoz.Orders.Checkout.Lines.{item_of, deduct_line, record_lines, delete_checked_out}
use gramoz.Orders.Checkout.Pricing.{Totals}
use gramoz.Orders.Checkout.Idempotency.{complete_idempotency}
use gramoz.Orders.Checkout.Input.{Request}
use gramoz.Orders.Checkout.Conservation.{Deducted, for_each-deduct}
use gramoz.Orders.Checkout.{
  Draft, use_promo, use_points, charge_customer, announce_order, finish_order, create_order,
  commit_order,
}

use_promo-SameGoods :
    (p : Option ℕ) (now : ℕ) (db : Db) → Post (λ _ after. SameGoods db after) (use_promo p now db)
unfolding use_promo increment_usage
use_promo-SameGoods none now db = SameGoods-refl db
use_promo-SameGoods (some id) now db = ground arith

spend_points-SameGoods :
    (now user n : ℕ) (ref : Option ℕ) (db : Db)
    → Post (λ _ after. SameGoods db after) (spend_points now user n ref db)
unfolding spend_points create_transaction
spend_points-SameGoods now user n ref db = ground arith

use_points-SameGoods :
    (r : Request) (t : Totals) (db : Db) → Post (λ _ after. SameGoods db after) (use_points r t db)
unfolding use_points
use_points-SameGoods r t db =
    Post-when (λ _ after. SameGoods db after) (ltb 0 t.points_spent)
      (spend_points r.now r.user_id t.points_spent (some r.new_order) >>= λ _. pure tt) db
      (SameGoods-refl db)
      (Post-bind (λ _ mid. SameGoods db mid) (λ _ after. SameGoods db after)
        (spend_points r.now r.user_id t.points_spent (some r.new_order)) (λ _. pure tt) db
        (spend_points-SameGoods r.now r.user_id t.points_spent (some r.new_order) db) λ _ mid s. s)

charge_customer-SameGoods :
    (r : Request) (t : Totals) (db : Db)
    → Post (λ _ after. SameGoods db after) (charge_customer r t db)
unfolding charge_customer
charge_customer-SameGoods r t db =
    Post-bind (λ _ mid. SameGoods db mid) _ (use_promo t.promo r.now) (λ _. use_points r t) db
      (use_promo-SameGoods t.promo r.now db)
      λ _ mid s.
        Post-weaken (λ _ after. SameGoods mid after) _ _ (use_points-SameGoods r t mid)
          λ _ after s'. SameGoods-trans s s'

-- Steps 8 to 13 add the items and finish the key; the rest stays.
record Finished (r : Request) (key : Option String) (k : Option IdempotencyKey) (d : Draft)
    (a b : Db) : Type 0 where
  products : b.products ≡ a.products
  variants : b.variants ≡ a.variants
  orders : b.orders ≡ a.orders
  items : b.order_items ≡ map (item_of d.order) d.lines ++ a.order_items
  idempotency : b.idempotency ≡ (complete_idempotency key k d.order.id a).idempotency

complete-Finished :
    (r : Request) (key : Option String) (k : Option IdempotencyKey) (d : Draft) (a mid : Db)
    → SameGoods (delete_checked_out r.user_id d.lines (record_lines d.order d.lines a)) mid
    → Finished r key k d a
        (complete_idempotency key k d.order.id (announce_order d.user d.order d.lines mid))
unfolding complete_idempotency announce_order delete_checked_out record_lines
complete-Finished r none k d a mid s = ground arith
complete-Finished r (some key) none d a mid s = ground arith
complete-Finished r (some key) (some k) d a mid s = ground arith

finish_order-Finished :
    (r : Request) (key : Option String) (k : Option IdempotencyKey) (d : Draft) (db : Db)
    → Post (λ _ after. Finished r key k d db after) (finish_order r key k d db)
unfolding finish_order
finish_order-Finished r key k d db =
    Post-bind (λ _ mid. SameGoods start mid) (λ _ after. Finished r key k d db after)
      (charge_customer r d.totals)
      (λ _.
        write (announce_order d.user d.order d.lines)
        >> write (complete_idempotency key k d.order.id))
      start (charge_customer-SameGoods r d.totals start)
      λ _ mid s. complete-Finished r key k d db mid s
  where
    start : Db
    start = delete_checked_out r.user_id d.lines (record_lines d.order d.lines db)

-- What a placed order leaves: its row in front, its items, the stock less their amounts, its key.
pub record Placed (key : Option String) (k : Option IdempotencyKey) (d : Draft) (a b : Db)
    : Type 0 where
  pub orders : b.orders ≡ d.order ∷ a.orders
  pub items : b.order_items ≡ map (item_of d.order) d.lines ++ a.order_items
  pub products :
      bump product_table (product_amounts (map (item_of d.order) d.lines)) b.products ≡ a.products
  pub variants :
      bump variant_table (variant_amounts (map (item_of d.order) d.lines)) b.variants ≡ a.variants
  pub idempotency : b.idempotency ≡ (complete_idempotency key k d.order.id a).idempotency

create_order_lem :
    (o : Order) (db : Db)
    → Post (λ _ after. after ≡ record db { orders = o ∷ db.orders }) (create_order o db)
unfolding create_order
create_order_lem o db = ground arith

pub complete_idempotency-same :
    (key : Option String) (k : Option IdempotencyKey) (id : ℕ) (a b : Db)
    → b.idempotency ≡ a.idempotency
    → (complete_idempotency key k id b).idempotency ≡ (complete_idempotency key k id a).idempotency
unfolding complete_idempotency
complete_idempotency-same none k id a b e = e
complete_idempotency-same (some s) none id a b e = e
complete_idempotency-same (some s) (some k) id a b e = ap (update (λ x. x.id == k.id) _) e

abbrev ordered : Draft → Db → Db
ordered d db = record db { orders = d.order ∷ db.orders }

combine-Placed :
    (r : Request) (key : Option String) (k : Option IdempotencyKey) (d : Draft) (db mid after : Db)
    → Deducted
        (product_amounts (map (item_of d.order) d.lines))
        (variant_amounts (map (item_of d.order) d.lines))
        (ordered d db)
        mid
    → Finished r key k d mid after
    → Placed key k d db after
combine-Placed r key k d db mid after p q = record {
  orders = q.orders ∙ p.orders;
  items = q.items ∙ ap (λ is. map (item_of d.order) d.lines ++ is) p.items;
  products = ap (bump product_table _) q.products ∙ p.products;
  variants = ap (bump variant_table _) q.variants ∙ p.variants;
  idempotency = q.idempotency ∙ complete_idempotency-same key k d.order.id db mid p.idempotency;
}

pub commit_order-Placed :
    (r : Request) (key : Option String) (k : Option IdempotencyKey) (d : Draft) (db : Db)
    → KeysAreUnique product_table db.products
    → KeysAreUnique variant_table db.variants
    → Post (λ o after. (o ≡ d.order) × Placed key k d db after) (commit_order r key k d db)
unfolding commit_order
commit_order-Placed r key k d db p v =
    Post-bind (λ _ start. start ≡ ordered d db) Goal (create_order d.order) (λ _. filling) db
      (create_order_lem d.order db) λ _ start e. subst (λ m. Post Goal (filling m)) (sym e) filled
  where
    Goal : Order → Db → Type 0
    Goal o after = (o ≡ d.order) × Placed key k d db after

    filling : Tx Order
    filling = do for_each deduct_line d.lines; finish_order r key k d; pure d.order

    filled : Post Goal (filling (ordered d db))
    filled =
        Post-bind
          (λ _ mid.
            Deducted (product_amounts (map (item_of d.order) d.lines))
              (variant_amounts (map (item_of d.order) d.lines)) (ordered d db) mid)
          Goal (for_each deduct_line d.lines) (λ _. finish_order r key k d >> pure d.order)
          (ordered d db) (for_each-deduct d.order d.lines (ordered d db) p v)
          λ _ mid taken.
            Post-bind (λ _ after. Finished r key k d mid after) Goal (finish_order r key k d)
              (λ _. pure d.order) mid (finish_order-Finished r key k d mid)
              λ _ after done. (refl, combine-Placed r key k d db mid after taken done)
