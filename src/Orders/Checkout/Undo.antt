-- ===== src/Orders/Checkout/Undo.antt =====
-- Checkout and cancellation together: what a checkout took, and what a cancellation gives back
-- (server/src/modules/orders/orders.service.ts).
use mathlib.Core.List.{append-nil}
use mathlib.Core.Bool.{false≢true}
use gramoz.Common.{
  ℕ, ◌≡◌, refl, ap, ◌∙◌, sym, subst, false, Option, some, List, [], ◌∷◌, ◌++◌, map, arith, ◌==◌,
}
use gramoz.Table.{update, find, select, exists}
use gramoz.Table.Laws.{select-append, select-none}
use gramoz.Table.Stock.{bump, KeysAreUnique}
use gramoz.Schema.{Db}
use gramoz.Schema.Enums.{OrderStatus, OrderPaymentStatus}
use gramoz.Schema.Rows.{Order, OrderItem, IdempotencyKey}
use gramoz.Tx.{ok, run_transaction}
use gramoz.Tx.Post.{Post, Post-bind, Post-weaken, Post-apply}
use gramoz.Orders.Transitions.{cancellable}
use gramoz.Orders.Store.{
  order_id_is, is_cancellable, find_order_by_id, cancelled_row, get_order_items_for_restock,
}
use gramoz.Orders.Cancel.{cancel_order, check_owner, cancel_order_internal}
use gramoz.Orders.Restock.{cancel_restocks}
use gramoz.Orders.Stock.{product_table, variant_table, product_amounts, variant_amounts}
use gramoz.Orders.Checkout.Lines.{Line, item_of, get_cart_items_with_products, sort_lines}
use gramoz.Orders.Checkout.Idempotency.{complete_idempotency}
use gramoz.Orders.Checkout.Input.{Host, Request, trimmed_key}
use gramoz.Orders.Checkout.Placed.{Placed, complete_idempotency-same, commit_order-Placed}
use gramoz.Orders.Checkout.Prepared.{Prepared, prepare_order-Prepared}
use gramoz.Orders.Checkout.{Draft, prepare_order, commit_order, place_order}

-- The sorted lines of the cart that a checkout reads.
abbrev pub cart_lines : Host → Request → Db → List Line
cart_lines h r db = sort_lines h.before (get_cart_items_with_products r.user_id db)

-- A new order `o`, and what it took of the stock of `a` to leave `b`.
pub record Bought (h : Host) (r : Request) (k : Option IdempotencyKey) (a : Db) (o : Order) (b : Db)
    : Type 0 where
  pub id : o.id ≡ r.new_order
  pub owner : o.user_id ≡ r.user_id
  pub status : o.status ≡ OrderStatus.pending
  pub payment : o.payment_status ≡ OrderPaymentStatus.unpaid
  pub key : o.idempotency_key ≡ trimmed_key h r
  pub orders : b.orders ≡ o ∷ a.orders
  pub items : b.order_items ≡ map (item_of o) (cart_lines h r a) ++ a.order_items
  pub products :
      bump product_table (product_amounts (map (item_of o) (cart_lines h r a))) b.products
      ≡ a.products
  pub variants :
      bump variant_table (variant_amounts (map (item_of o) (cart_lines h r a))) b.variants
      ≡ a.variants
  pub idempotency :
      b.idempotency ≡ (complete_idempotency (trimmed_key h r) k r.new_order a).idempotency

bought :
    (h : Host) (r : Request) (k : Option IdempotencyKey) (db : Db) (d : Draft) (mid after : Db)
    → Prepared h r db d mid
    → Placed (trimmed_key h r) k d mid after
    → Bought h r k db d.order after
bought h r k db d mid after x y = record {
  id = x.id;
  owner = x.owner;
  status = x.status;
  payment = x.payment;
  key = x.key;
  orders = y.orders ∙ ap (λ os. d.order ∷ os) x.same.orders;
  items = y.items ∙ (λ i. map (item_of d.order) (x.lines i) ++ x.same.items i);
  products =
      subst
        (λ ls.
          bump product_table (product_amounts (map (item_of d.order) ls)) after.products
          ≡ db.products)
        x.lines (y.products ∙ x.same.products);
  variants =
      subst
        (λ ls.
          bump variant_table (variant_amounts (map (item_of d.order) ls)) after.variants
          ≡ db.variants)
        x.lines (y.variants ∙ x.same.variants);
  idempotency =
      y.idempotency
      ∙ (λ i. (complete_idempotency (trimmed_key h r) k (x.id i) mid).idempotency)
      ∙ complete_idempotency-same (trimmed_key h r) k r.new_order db mid x.same.idempotency;
}

pub place_order-Bought :
    (h : Host) (r : Request) (c : Option ℕ) (k : Option IdempotencyKey) (db : Db)
    → KeysAreUnique product_table db.products
    → KeysAreUnique variant_table db.variants
    → Post (λ o after. Bought h r k db o after) (place_order h r c k db)
unfolding place_order
place_order-Bought h r c k db p v =
    Post-bind (λ d mid. Prepared h r db d mid) (λ o after. Bought h r k db o after)
      (prepare_order h r c) (commit_order r (trimmed_key h r) k) db
      (prepare_order-Prepared h r c db)
      λ d mid x.
        Post-weaken (λ o after. (o ≡ d.order) × Placed (trimmed_key h r) k d mid after)
          (λ o after. Bought h r k db o after) _
          (commit_order-Placed r (trimmed_key h r) k d mid
            (subst (KeysAreUnique product_table) (sym x.same.products) p)
            (subst (KeysAreUnique variant_table) (sym x.same.variants) v))
          λ o after y.
            subst (λ z. Bought h r k db z after) (sym y.0) (bought h r k db d mid after x y.1)

pub checkout_takes :
    (h : Host) (r : Request) (c : Option ℕ) (k : Option IdempotencyKey) (db mid : Db) (o : Order)
    → KeysAreUnique product_table db.products
    → KeysAreUnique variant_table db.variants
    → place_order h r c k db ≡ ok (o, mid)
    → Bought h r k db o mid
checkout_takes h r c k db mid o p v run =
    Post-apply (λ o after. Bought h r k db o after) (place_order-Bought h r c k db p v) run

-- The items of an order that did not exist before are those of its own checkout.
own_items :
    (o : Order) (id : ℕ) (ls : List Line)
    → o.id ≡ id
    → select (λ (i : OrderItem). i.order_id == id) (map (item_of o) ls) ≡ map (item_of o) ls
own_items o id [] e = refl
own_items o id (l ∷ ls) e = ground (arith, own_items o id ls e)

items_to_restock :
    (h : Host) (r : Request) (k : Option IdempotencyKey) (a : Db) (o : Order) (b : Db)
    → exists (λ (i : OrderItem). i.order_id == r.new_order) a.order_items ≡ false
    → Bought h r k a o b
    → get_order_items_for_restock r.new_order b ≡ map (item_of o) (cart_lines h r a)
unfolding get_order_items_for_restock
items_to_restock h r k a o b fresh x =
    ap (select (λ i. i.order_id == r.new_order)) x.items
    ∙ select-append (λ i. i.order_id == r.new_order) (map (item_of o) (cart_lines h r a))
        a.order_items
    ∙ (λ i.
        own_items o r.new_order (cart_lines h r a) x.id i
        ++ select-none (λ j. j.order_id == r.new_order) a.order_items fresh i)
    ∙ append-nil (map (item_of o) (cart_lines h r a))

owned :
    (r : Request) (o : Order)
    → o.user_id ≡ r.user_id
    → o.status ≡ OrderStatus.pending
    → check_owner r.user_id o ≡ ok tt
unfolding check_owner
owned r o u s = ground arith

cancel_order-eq :
    (now user id : ℕ) (db : Db) (o : Order) {c : Order} {after : Db}
    → find_order_by_id id db ≡ some o
    → check_owner user o ≡ ok tt
    → cancel_order_internal now id false db ≡ ok (c, after)
    → cancel_order now user id db ≡ (ok c, after)
unfolding cancel_order
cancel_order-eq now user id db o f w e = rw (f, w, e, cancel_order, run_transaction)

-- Buying and cancelling: if a checkout succeeds under an order id that no item has, and products and
-- variants have distinct ids, then the customer's cancellation of the new order succeeds, and leaves
-- every product and every variant with the stock that it had before the checkout.
pub checkout_then_cancel :
    (h : Host) (r : Request) (c : Option ℕ) (k : Option IdempotencyKey) (now : ℕ) (db mid : Db)
    (o : Order)
    → KeysAreUnique product_table db.products
    → KeysAreUnique variant_table db.variants
    → exists (λ (i : OrderItem). i.order_id == r.new_order) db.order_items ≡ false
    → place_order h r c k db ≡ ok (o, mid)
    → (after : Db) × (cancel_order now r.user_id r.new_order mid ≡ (ok (cancelled_row o), after))
      × (after.products ≡ db.products)
      × (after.variants ≡ db.variants)
checkout_then_cancel h r c k now db mid o p v fresh run = (
  cancels.0,
  cancel_order-eq now r.user_id r.new_order mid o there (owned r o x.owner x.status) cancels.1,
  cancels.2
      ∙ ap (λ is. bump product_table (product_amounts is) mid.products) given_back
      ∙ x.products,
  cancels.3
      ∙ ap (λ is. bump variant_table (variant_amounts is) mid.variants) given_back
      ∙ x.variants,
)
  where
    x : Bought h r k db o mid
    x = checkout_takes h r c k db mid o p v run

    there : find_order_by_id r.new_order mid ≡ some o
    there = ap (find (order_id_is r.new_order)) x.orders ∙ ground (arith, x.id)

    given_back : get_order_items_for_restock r.new_order mid ≡ map (item_of o) (cart_lines h r db)
    given_back = items_to_restock h r k db o mid fresh x

    cancels :
        (after : Db) × (cancel_order_internal now r.new_order false mid
          ≡ ok (cancelled_row o, after))
        × (after.products
            ≡ bump product_table
                (product_amounts (get_order_items_for_restock r.new_order mid))
                mid.products)
        × (after.variants
            ≡ bump variant_table
                (variant_amounts (get_order_items_for_restock r.new_order mid))
                mid.variants)
        × (after.orders ≡ update (is_cancellable r.new_order) cancelled_row mid.orders)
    cancels =
        cancel_restocks now r.new_order false mid o there (ap cancellable x.status)
          λ e. absurd (false≢true e)
