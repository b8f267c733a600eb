-- ===== src/Refunds/Marked.antt =====
-- The rows that the settlement in server/src/modules/refunds/refunds.service.ts leaves, as the code
-- computes them.
use gramoz.Common.{ℕ, ◌≡◌, refl, ap, sym, ◌∙◌, String, Option, none, some, arith, ◌==◌}
use gramoz.Table.{find, update}
use gramoz.Table.Laws.{find_sound, find-update}
use gramoz.Schema.{Db}
use gramoz.Schema.Rows.{Order, Payment, Refund}
use gramoz.Tx.{ok}
use gramoz.Orders.Store.{find_order_by_id, order_id_is}
use gramoz.Payments.Store.{update_payment, update_order}
use gramoz.Refunds.Store.{find_refund_by_id, refund_id_is, update_refund}
use gramoz.Refunds.Settle.{
  ProcessRefundDto, refunded_order, linked_payment, refund_linked_payment, mark_refunded,
  processed_refund, settle_refund,
}
use gramoz.Refunds.Settled.{settle-Steps, return_goods-Kept}

-- The rows of the order, the payment and the refund.
pub record Marked (now admin : ℕ) (dto : ProcessRefundDto) (ref : Option String) (x : Refund)
    (a b : Db) : Type 0 where
  pub order : Order
  pub locked : Refund
  pub order_row : find_order_by_id x.order_id b ≡ some (refunded_order order)
  pub order_before : find_order_by_id x.order_id a ≡ some order
  pub refund_row : find_refund_by_id x.id b ≡ some (processed_refund admin dto ref locked locked)
  pub refund_before : find_refund_by_id x.id a ≡ some locked
  pub orders : b.orders ≡ update (order_id_is x.order_id) refunded_order a.orders
  pub payments : b.payments ≡ (refund_linked_payment now (linked_payment x a) a).payments

update_refund-found :
    (id : ℕ) (f : Refund → Refund) (a : Db) {l : Refund} {o : Option Refund} {b : Db}
    → ((r : Refund) → (f r).id ≡ r.id)
    → find_refund_by_id id a ≡ some l
    → update_refund id f a ≡ ok (o, b)
    → (find_refund_by_id id b ≡ some (f l))
      × (b ≡ record a { refunds = update (refund_id_is id) f a.refunds })
unfolding update_refund
update_refund-found id f a {l} {o} {b} k n h =
    let same : b ≡ record a { refunds = update (refund_id_is id) f a.refunds } =
      ground (arith, h) in
    (
      ap (find_refund_by_id id) same
          ∙ find-update (refund_id_is id) (refund_id_is id) f a.refunds
              (λ r. ap (λ i. i == id) (k r)) n (find_sound (refund_id_is id) a.refunds n),
      same,
    )

marked_orders :
    (now : ℕ) (p : Option Payment) (o : Order) (a : Db)
    → (mark_refunded now p o a).orders ≡ update (order_id_is o.id) refunded_order a.orders
unfolding mark_refunded update_order refund_linked_payment update_payment
marked_orders now none o a = refl
marked_orders now (some p) o a = refl

pub marked_rest :
    (now : ℕ) (p : Option Payment) (o : Order) (a : Db)
    → ((mark_refunded now p o a).refunds ≡ a.refunds)
      × ((mark_refunded now p o a).payments ≡ (refund_linked_payment now p a).payments)
      × ((mark_refunded now p o a).products ≡ a.products)
      × ((mark_refunded now p o a).variants ≡ a.variants)
      × ((mark_refunded now p o a).inventory ≡ a.inventory)
unfolding mark_refunded update_order refund_linked_payment update_payment
marked_rest now none o a = (refl, refl, refl, refl, refl)
marked_rest now (some p) o a = (refl, refl, refl, refl, refl)

pub update_refund-writes :
    (id : ℕ) (f : Refund → Refund) (a : Db) {o : Option Refund} {b : Db}
    → update_refund id f a ≡ ok (o, b)
    → b ≡ record a { refunds = update (refund_id_is id) f a.refunds }
unfolding update_refund
update_refund-writes id f a h = ground (arith, h)

pub settled_rows :
    (now admin : ℕ) (dto : ProcessRefundDto) (ref : Option String) (x : Refund) (a : Db)
    (o : Option Refund) (b : Db)
    → settle_refund now admin dto ref x a ≡ ok (o, b)
    → Marked now admin dto ref x a b
settled_rows now admin dto ref x a o b h =
    let s = settle-Steps now admin dto ref x a h in
    let start = mark_refunded now (linked_payment x a) s.order a in
    let k = return_goods-Kept s.locked.id s.locked.reason s.order start s.returned in
    let (refunds, payments, _, _, _) = marked_rest now (linked_payment x a) s.order a in
    let key : s.locked.id ≡ x.id = ground (arith, find_sound (refund_id_is x.id) a.refunds s.row) in
    let order_key : s.order.id ≡ x.order_id =
      ground (arith, find_sound (order_id_is x.order_id) a.orders s.there) in
    let at_mid : find_refund_by_id s.locked.id s.mid ≡ some s.locked =
      ap (λ r. find (refund_id_is s.locked.id) r) (k.refunds ∙ refunds)
      ∙ ap (λ i. find (refund_id_is i) a.refunds) key
      ∙ s.row in
    let (found, writes) =
      update_refund-found s.locked.id (processed_refund admin dto ref s.locked) s.mid (λ r. refl)
        at_mid s.recorded in
    let orders : b.orders ≡ update (order_id_is x.order_id) refunded_order a.orders =
      ap (λ d. d.orders) writes
      ∙ k.orders
      ∙ marked_orders now (linked_payment x a) s.order a
      ∙ ap (λ i. update (order_id_is i) refunded_order a.orders) order_key in
    record {
      order = s.order;
      locked = s.locked;
      order_row =
          ap (find (order_id_is x.order_id)) orders
          ∙ find-update (order_id_is x.order_id) (order_id_is x.order_id) refunded_order a.orders
              (λ y. refl) s.there (find_sound (order_id_is x.order_id) a.orders s.there);
      order_before = s.there;
      orders = orders;
      refund_row = ap (λ i. find_refund_by_id i b) (sym key) ∙ found;
      refund_before = s.row;
      payments = ap (λ d. d.payments) writes ∙ k.payments ∙ payments;
    }
