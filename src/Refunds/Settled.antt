-- ===== src/Refunds/Settled.antt =====
-- What a settlement writes: the final transaction of `processRefund` in
-- server/src/modules/refunds/refunds.service.ts.
use gramoz.Common.{
  ℕ, ◌≡◌, ap, ◌∙◌, String, true, false, not, ◌||◌, Option, some, List, [], ◌∷◌, arith, Bool-cases,
  Option-cases, inl, inr,
}
use gramoz.Schema.{Db}
use gramoz.Schema.Enums.{RefundReason}
use gramoz.Schema.Rows.{Order, OrderItem, Refund}
use gramoz.Tx.{ok, write, for_each, ◌>>=◌}
use gramoz.Tx.Post.{bind-inv}
use gramoz.Loyalty.{refund_points, create_transaction}
use gramoz.Orders.Store.{
  find_order_by_id, get_order_items_for_restock, restore_product_stock, restore_variant_stock,
  create_inventory_transaction,
}
use gramoz.Orders.Cancel.{return_points}
use gramoz.Refunds.Store.{find_refund_by_id, update_refund}
use gramoz.Refunds.Settle.{
  ProcessRefundDto, is_closed, linked_payment, is_damaged, restock_saleable, restock_returned,
  return_item, return_items, must_restock, restock_order, mark_refunded, return_goods,
  processed_refund, write_settlement, check_settlement, settle_locked, settle_refund,
}

-- The parts of the database that the return of goods and points leaves alone.
pub record Kept (a b : Db) : Type 0 where
  pub orders : b.orders ≡ a.orders
  pub payments : b.payments ≡ a.payments
  pub refunds : b.refunds ≡ a.refunds

Kept-trans : (a b c : Db) → Kept a b → Kept b c → Kept a c
Kept-trans a b c k l = record {
  orders = l.orders ∙ k.orders;
  payments = l.payments ∙ k.payments;
  refunds = l.refunds ∙ k.refunds;
}

Kept-refl : (a b : Db) → b ≡ a → Kept a b
Kept-refl a b e = record {
  orders = ap (λ d. d.orders) e;
  payments = ap (λ d. d.payments) e;
  refunds = ap (λ d. d.refunds) e;
}

return_item-Kept :
    (id : ℕ) (s : RefundReason) (i : OrderItem) (a : Db) → Kept a (return_item id s i a)
unfolding return_item restock_returned restock_saleable restore_product_stock restore_variant_stock
    create_inventory_transaction
return_item-Kept id s i a = record {
  orders = ground arith;
  payments = ground arith;
  refunds = ground arith;
}

-- The loop over the items; a damaged item leaves the stock alone.
return_all-Kept :
    (id : ℕ) (s : RefundReason) (items : List OrderItem) (a : Db) {b : Db}
    → for_each (λ i. write (return_item id s i)) items a ≡ ok (tt, b)
    → Kept a b
unfolding for_each
return_all-Kept id s [] a {b} h = Kept-refl a b (ground (arith, h))
return_all-Kept id s (i ∷ items) a {b} h =
    Kept-trans a (return_item id s i a) b (return_item-Kept id s i a)
      (return_all-Kept id s items (return_item id s i a) h)

return_points-Kept :
    (id : ℕ) (o : Order) (a : Db) {b : Db} → return_points id o a ≡ ok (tt, b) → Kept a b
unfolding return_points refund_points create_transaction
return_points-Kept id o a h = record {
  orders = ground (arith, h);
  payments = ground (arith, h);
  refunds = ground (arith, h);
}

abbrev pub SameStock : Db → Db → Type 0
SameStock a b = (b.products ≡ a.products) × (b.variants ≡ a.variants)

pub SameStock-trans : (a b c : Db) → SameStock a b → SameStock b c → SameStock a c
SameStock-trans a b c s t = (t.0 ∙ s.0, t.1 ∙ s.1)

return_all-SameStock :
    (id : ℕ) (s : RefundReason) (items : List OrderItem) (a : Db) {b : Db}
    → is_damaged s ≡ true
    → for_each (λ i. write (return_item id s i)) items a ≡ ok (tt, b)
    → SameStock a b
unfolding for_each return_item restock_returned create_inventory_transaction
return_all-SameStock id s [] a d h = (ground (arith, h), ground (arith, h))
return_all-SameStock id s (i ∷ items) a {b} d h =
    SameStock-trans a (return_item id s i a) b (ground (arith, d), ground (arith, d))
      (return_all-SameStock id s items (return_item id s i a) d h)

restock_order-Kept :
    (id : ℕ) (s : RefundReason) (o : Order) (a : Db) {b : Db}
    → restock_order id s o a ≡ ok (tt, b)
    → Kept a b
unfolding restock_order return_items
restock_order-Kept id s o a {b} h = elim (Bool-cases (must_restock id o a)) [
  | inl y ↦
      let run : for_each (λ i. write (return_item id s i)) (get_order_items_for_restock o.id a) a
          ≡ ok (tt, b) =
        ground (arith, y, h) in
      return_all-Kept id s (get_order_items_for_restock o.id a) a run
  | inr y ↦ Kept-refl a b (ground (arith, y, h))
]

restock_order-SameStock :
    (id : ℕ) (s : RefundReason) (o : Order) (a : Db) {b : Db}
    → (is_damaged s || not (must_restock id o a)) ≡ true
    → restock_order id s o a ≡ ok (tt, b)
    → SameStock a b
unfolding restock_order return_items
restock_order-SameStock id s o a {b} c h = elim (Bool-cases (must_restock id o a)) [
  | inl y ↦
      let run : for_each (λ i. write (return_item id s i)) (get_order_items_for_restock o.id a) a
          ≡ ok (tt, b) =
        ground (arith, y, h) in
      return_all-SameStock id s (get_order_items_for_restock o.id a) a (ground (arith, c, y)) run
  | inr y ↦ (ground (arith, y, h), ground (arith, y, h))
]

return_points-SameStock :
    (id : ℕ) (o : Order) (a : Db) {b : Db} → return_points id o a ≡ ok (tt, b) → SameStock a b
unfolding return_points refund_points create_transaction
return_points-SameStock id o a h = (ground (arith, h), ground (arith, h))

pub return_goods-Kept :
    (id : ℕ) (s : RefundReason) (o : Order) (a : Db) {b : Db}
    → return_goods id s o a ≡ ok (tt, b)
    → Kept a b
unfolding return_goods
return_goods-Kept id s o a {b} h =
    let (tt, m, e, f) = bind-inv (restock_order id s o) (λ _. return_points o.id o) a h in
    Kept-trans a m b (restock_order-Kept id s o a e) (return_points-Kept o.id o m f)

pub return_goods-SameStock :
    (id : ℕ) (s : RefundReason) (o : Order) (a : Db) {b : Db}
    → (is_damaged s || not (must_restock id o a)) ≡ true
    → return_goods id s o a ≡ ok (tt, b)
    → SameStock a b
unfolding return_goods
return_goods-SameStock id s o a {b} c h =
    let (tt, m, e, f) = bind-inv (restock_order id s o) (λ _. return_points o.id o) a h in
    SameStock-trans a m b (restock_order-SameStock id s o a c e)
      (return_points-SameStock o.id o m f)

-- The steps of a settlement that succeeded.
pub record Steps (now admin : ℕ) (dto : ProcessRefundDto) (ref : Option String) (x : Refund)
    (a b : Db) : Type 0 where
  pub order : Order
  pub there : find_order_by_id x.order_id a ≡ some order
  pub locked : Refund
  pub row : find_refund_by_id x.id a ≡ some locked
  pub still_open : is_closed locked ≡ false
  pub mid : Db
  pub returned :
      return_goods locked.id locked.reason order (mark_refunded now (linked_payment x a) order a)
      ≡ ok (tt, mid)
  pub result : Option Refund
  pub recorded :
      update_refund locked.id (processed_refund admin dto ref locked) mid ≡ ok (result, b)

pub settle-Steps :
    (now admin : ℕ) (dto : ProcessRefundDto) (ref : Option String) (x : Refund) (a : Db)
    {o : Option Refund} {b : Db}
    → settle_refund now admin dto ref x a ≡ ok (o, b)
    → Steps now admin dto ref x a b
unfolding settle_refund settle_locked check_settlement write_settlement
settle-Steps now admin dto ref x a {o} {b} h = elim (Option-cases (find_order_by_id x.order_id a)) [
  | inl n ↦ ground (arith, n, h)
  | inr (order, n) ↦ elim (Option-cases (find_refund_by_id x.id a)) [
    | inl m ↦ ground (arith, n, m, h)
    | inr (l, m) ↦
        let start = mark_refunded now (linked_payment x a) order a in
        let run : (return_goods l.id l.reason order
                >>= (λ _. update_refund l.id (processed_refund admin dto ref l)))
              start
            ≡ ok (o, b) =
          ground (arith, n, m, h) in
        let (tt, mid, e, f) =
          bind-inv (return_goods l.id l.reason order)
            (λ _. update_refund l.id (processed_refund admin dto ref l)) start run in
        record {
          order = order;
          there = n;
          locked = l;
          row = m;
          still_open = ground (arith, n, m, h);
          mid = mid;
          returned = e;
          result = o;
          recorded = f;
        }
  ]
]
