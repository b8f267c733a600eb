-- ===== src/Refunds/Settlement.antt =====
-- The outcome of a settlement in server/src/modules/refunds/refunds.service.ts.
use gramoz.Common.{
  ℕ, ◌≡◌, ◌≢◌, ◌⊎◌, refl, ap, ◌∙◌, String, true, false, not, ◌&&◌, ◌||◌, Option, some, List, [],
  ◌∷◌, arith, ◌==◌, Option-cases, Bool-cases, inl, inr,
}
use mathlib.Core.List.{Memᴰ}
use gramoz.Table.{find, exists}
use gramoz.Table.Laws.{find_sound, find-update}
use gramoz.Table.Unique.{find-update_apart}
use gramoz.Schema.{Db}
use gramoz.Schema.Enums.{
  OrderStatus, OrderPaymentStatus, PaymentStatus, RefundStatus, damaged_item, inward,
}
use gramoz.Schema.Rows.{Order, Payment, Refund, InventoryTransaction}
use gramoz.Tx.{ok, err, invalid_operation, refund_settled}
use gramoz.Orders.Store.{find_order_by_id, order_id_is}
use gramoz.Payments.Store.{payment_id_is, find_payment_by_id, update_payment, with_status}
use gramoz.Payments.Gateway.{Answer}
use gramoz.Refunds.Store.{find_refund_by_id, has_been_restocked, refers, is_inward}
use gramoz.Refunds.Settle.{
  ProcessRefundDto, refunded_order, linked_payment, refund_linked_payment, is_damaged, must_restock,
  mark_refunded, processed_refund, settle_refund,
}
use gramoz.Refunds.Process.{find_open_refund, process_refund}
use gramoz.Refunds.Settled.{settle-Steps, return_goods-SameStock}
use gramoz.Refunds.Marked.{marked_rest, update_refund-writes, settled_rows}

-- The rows of the order, the refund and the payments after a settlement.
pub record Refunded (admin : ℕ) (ref : Option String) (x : Refund) (a b : Db) : Type 0 where
  pub order_row :
      (y : Order) × (find_order_by_id x.order_id b ≡ some y)
      × (y.status ≡ OrderStatus.refunded)
      × (y.payment_status ≡ OrderPaymentStatus.refunded)
  pub other_orders :
      (j : ℕ) → (x.order_id == j) ≡ false → find_order_by_id j b ≡ find_order_by_id j a
  pub refund_row :
      (r : Refund) × (find_refund_by_id x.id b ≡ some r)
      × (r.status ≡ RefundStatus.processed)
      × (r.processed_by ≡ some admin)
      × ((w : String) → ref ≡ some w → r.gateway_refund_id ≡ some w)
  pub linked :
      (i : ℕ) (p : Payment)
      → x.payment_id ≡ some i
      → find_payment_by_id i a ≡ some p
      → (q : Payment) × (find_payment_by_id i b ≡ some q) × (q.status ≡ PaymentStatus.refunded)
  pub other_payments :
      (j : ℕ) → x.payment_id ≢ some j → find_payment_by_id j b ≡ find_payment_by_id j a

module _ (now : ℕ) (x : Refund) (a : Db) where
  linked_row :
      (i : ℕ) (p : Payment)
      → x.payment_id ≡ some i
      → find_payment_by_id i a ≡ some p
      → (q : Payment) × (find
            (payment_id_is i)
            (refund_linked_payment now (linked_payment x a) a).payments
          ≡ some q)
        × (q.status ≡ PaymentStatus.refunded)
  unfolding refund_linked_payment update_payment
  linked_row i p e f =
      let key : payment_id_is i p ≡ true = find_sound (payment_id_is i) a.payments f in
      let found : linked_payment x a ≡ some p = ground (arith, e, f) in
      (
        with_status now PaymentStatus.refunded p,
        ap (λ o. find (payment_id_is i) (refund_linked_payment now o a).payments) found
            ∙ find-update (payment_id_is i) (payment_id_is p.id)
                (with_status now PaymentStatus.refunded) a.payments (λ y. refl) f (ground arith),
        refl,
      )

  unlinked_row :
      (j : ℕ)
      → x.payment_id ≢ some j
      → find (payment_id_is j) (refund_linked_payment now (linked_payment x a) a).payments
        ≡ find_payment_by_id j a
  unfolding refund_linked_payment update_payment
  unlinked_row j n = elim (Option-cases x.payment_id) [
    | inl e ↦ ground (arith, e)
    | inr (i, e) ↦ elim (Option-cases (find_payment_by_id i a)) [
      | inl f ↦ ground (arith, e, f)
      | inr (p, f) ↦
          let key : (p.id == i) ≡ true = find_sound (payment_id_is i) a.payments f in
          let found : linked_payment x a ≡ some p = ground (arith, e, f) in
          let apart : (i == j) ≡ false = elim (Bool-cases (i == j)) [
            | inl y ↦ absurd (n (e ∙ ap some (ground (arith, y))))
            | inr y ↦ y
          ] in
          ap (λ o. find (payment_id_is j) (refund_linked_payment now o a).payments) found
          ∙ find-update_apart (payment_id_is j) (payment_id_is p.id)
              (with_status now PaymentStatus.refunded) a.payments (λ y. refl)
              (λ y h. ground (arith, h, key, apart))
    ]
  ]

-- A settlement that succeeds leaves the order with status and payment status refunded, the linked
-- payment, if its row is there, refunded, and the refund processed by this administrator, under
-- the gateway's reference if there is one; no other order and no other payment changes.
pub settlement_marks :
    (now admin : ℕ) (dto : ProcessRefundDto) (ref : Option String) (x : Refund) (a : Db)
    (o : Option Refund) (b : Db)
    → settle_refund now admin dto ref x a ≡ ok (o, b)
    → Refunded admin ref x a b
settlement_marks now admin dto ref x a o b h =
    let m = settled_rows now admin dto ref x a o b h in
    record {
      order_row = (refunded_order m.order, m.order_row, refl, refl);
      other_orders = λ j apart.
          ap (find (order_id_is j)) m.orders
          ∙ find-update_apart (order_id_is j) (order_id_is x.order_id) refunded_order a.orders
              (λ y. refl) (λ y e. ground (arith, e, apart));
      refund_row = (
        processed_refund admin dto ref m.locked m.locked,
        m.refund_row,
        refl,
        refl,
        λ w e. ground (arith, e),
      );
      linked = λ i p e f.
          let (q, found, status) = linked_row now x a i p e f in
          (q, ap (find (payment_id_is i)) m.payments ∙ found, status);
      other_payments = λ j n. ap (find (payment_id_is j)) m.payments ∙ unlinked_row now x a j n;
    }

-- A row records the return of the goods, for the order or for the refund.
abbrev pub Returned : (order refund : ℕ) → Db → Type 0
Returned order refund a =
    (t : InventoryTransaction) × Memᴰ t a.inventory
    × (t.transaction_type ≡ inward)
    × ((t.reference_id ≡ some order) ⊎ (t.reference_id ≡ some refund))

restocked_rows :
    (id : ℕ) (t : InventoryTransaction) (ts : List InventoryTransaction)
    → Memᴰ t ts
    → t.transaction_type ≡ inward
    → t.reference_id ≡ some id
    → exists (λ t. refers id t && is_inward t) ts ≡ true
restocked_rows id t [] m i r = elim m [ ]
restocked_rows id t (s ∷ ts) (Memᴰ.head e) i r = ground (arith, e, i, r)
restocked_rows id t (s ∷ ts) (Memᴰ.tail m) i r = ground (arith, restocked_rows id t ts m i r)

restocked :
    (id : ℕ) (t : InventoryTransaction) (a : Db)
    → Memᴰ t a.inventory
    → t.transaction_type ≡ inward
    → t.reference_id ≡ some id
    → has_been_restocked id a ≡ true
unfolding has_been_restocked
restocked id t a m i r = restocked_rows id t a.inventory m i r

spared :
    (l : Refund) (order : Order) (a : Db)
    → (l.reason ≡ damaged_item)
      ⊎ ((order.status ≡ OrderStatus.cancelled) ⊎ Returned order.id l.id a)
    → (is_damaged l.reason || not (must_restock l.id order a)) ≡ true
spared l order a (inl h) = ground (arith, h)
spared l order a (inr (inl h)) = ground (arith, h)
spared l order a (inr (inr (t, m, i, inl r))) = ground (arith, restocked order.id t a m i r)
spared l order a (inr (inr (t, m, i, inr r))) = ground (arith, restocked l.id t a m i r)

must_restock_same :
    (id : ℕ) (o : Order) (a b : Db)
    → b.inventory ≡ a.inventory
    → must_restock id o b ≡ must_restock id o a
unfolding has_been_restocked
must_restock_same id o a b e = ground (arith, e)

-- A settlement changes no stock if the refund's reason is damaged goods, if the order is cancelled, or
-- if an inward row of the inventory already records the return under the order or the refund.
pub no_phantom_stock :
    (now admin : ℕ) (dto : ProcessRefundDto) (ref : Option String) (x l : Refund) (order : Order)
    (a : Db) (o : Option Refund) (b : Db)
    → find_order_by_id x.order_id a ≡ some order
    → find_refund_by_id x.id a ≡ some l
    → (l.reason ≡ damaged_item)
      ⊎ ((order.status ≡ OrderStatus.cancelled) ⊎ Returned order.id l.id a)
    → settle_refund now admin dto ref x a ≡ ok (o, b)
    → (b.products ≡ a.products) × (b.variants ≡ a.variants)
no_phantom_stock now admin dto ref x l order a o b n m c h =
    let s = settle-Steps now admin dto ref x a h in
    let start = mark_refunded now (linked_payment x a) s.order a in
    let (_, _, products, variants, inventory) = marked_rest now (linked_payment x a) s.order a in
    let own : s.order ≡ order = ground (arith, n, s.there) in
    let same : s.locked ≡ l = ground (arith, m, s.row) in
    let still : (is_damaged s.locked.reason || not (must_restock s.locked.id s.order start))
        ≡ true =
      ap (λ b'. is_damaged s.locked.reason || not b')
        (must_restock_same s.locked.id s.order a start inventory)
      ∙ ap (λ y. is_damaged y.reason || not (must_restock y.id s.order a)) same
      ∙ ap (λ y. is_damaged l.reason || not (must_restock l.id y a)) own
      ∙ spared l order a c in
    let (p, v) =
      return_goods-SameStock s.locked.id s.locked.reason s.order start still s.returned in
    let writes =
      update_refund-writes s.locked.id (processed_refund admin dto ref s.locked) s.mid s.recorded in
    (ap (λ d. d.products) writes ∙ p ∙ products, ap (λ d. d.variants) writes ∙ v ∙ variants)

-- After a settlement every further processing of the refund is refused and changes nothing.
pub settled_once :
    (gateway : (bank : String) → (amount refund : ℕ) → Answer) (cod_reference manual : String)
    (now admin later other : ℕ) (dto again : ProcessRefundDto) (ref : Option String) (x : Refund)
    (a : Db) (o : Option Refund) (b : Db)
    → settle_refund now admin dto ref x a ≡ ok (o, b)
    → process_refund gateway cod_reference manual later other x.id again b
      ≡ (err (invalid_operation refund_settled), b)
unfolding process_refund find_open_refund
settled_once gateway cod_reference manual now admin later other dto again ref x a o b h =
    let r = settled_rows now admin dto ref x a o b h in ground (arith, r.refund_row)
