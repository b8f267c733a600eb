-- ===== src/Payments/Kept.antt =====
-- Every kind of write keeps the state sound, and the completed payments.
use gramoz.Common.{
  ℕ, ◌≡◌, refl, ap, sym, ◌∙◌, subst, Bool, true, false, some, List, [], ◌∷◌, arith, ◌==◌,
  if◌then◌else◌, Bool-cases, inl, inr, ◌⊎◌,
}
use gramoz.Table.{find, update, exists}
use gramoz.Table.Unique.{UniqueBy, exists_weaken}
use gramoz.Table.Laws.{find_sound, exists_of_find}
use gramoz.Table.Update.{exists-update_made}
use gramoz.Schema.{Db}
use gramoz.Schema.Enums.{OrderPaymentStatus, PaymentStatus, payment_is_pending}
use gramoz.Schema.Rows.{Order, Payment}
use gramoz.Orders.Store.{order_id_is, find_order_by_id}
use gramoz.Payments.Store.{payment_id_is, is_terminal}
use gramoz.Payments.Writes.{
  same_payment, same_transaction, is_completed, refunded_for, settled_for, pending_for, rivals,
  Keys, Marks, initiates, frees, IsNew, Write, opened, failed, completed, Writes, nothing, more,
}
use gramoz.Payments.Sound.{
  Calm, Tidy, Backed, Idle, mark-Keys, mark_sole, mark_none_refunded, mark_idle, sole_gone, kept,
  settled_is_completed, found_before, not_paid, frees-Backed,
}

-- A payment of the order that may still fail is pending.
pending_of :
    (k : ℕ) (a : Db) (p : Payment)
    → exists (refunded_for k) a.payments ≡ false
    → find (payment_id_is p.id) a.payments ≡ some p
    → is_terminal p.status ≡ false
    → (p.order_id == k) ≡ true
    → payment_is_pending p.status ≡ true
pending_of k a p n e t i = elim (Bool-cases (refunded_for k p)) [
  | inl r ↦
      let there : exists (refunded_for k) a.payments ≡ true =
        exists_of_find (payment_id_is p.id) (refunded_for k) a.payments e r in
      ground (arith, n, there)
  | inr r ↦ ground (arith, r, t, i)
]

open_none :
    (k : ℕ) (q : Payment) (o : Order) (a : Db)
    → IsNew q o a
    → (k == o.id) ≡ false
    → exists (pending_for k) a.payments ≡ false
    → exists (pending_for k) (q ∷ a.payments) ≡ false
open_none k q o a n h e = ground (arith, n.of_order, h, e)

no_rival :
    (k : ℕ) (q : Payment) (ps : List Payment)
    → pending_for k q ≡ false
    → exists (rivals k q) ps ≡ false
no_rival k q [] h = refl
no_rival k q (p ∷ ps) h = ground (arith, h, no_rival k q ps)

module _ (a b : Db) (keys : Keys a) where
  -- An order after the update that makes one paid.
  completed_cases :
      (p : Payment) (g : Order → Order) (k : ℕ) (i : Order)
      → ((o : Order) → ((g o).id ≡ o.id) × ((g o).payment_status ≡ OrderPaymentStatus.paid))
      → b.orders ≡ update (order_id_is p.order_id) g a.orders
      → find_order_by_id k b ≡ some i
      → (((p.order_id == k) ≡ true) × (i.payment_status ≡ OrderPaymentStatus.paid))
        ⊎ (find_order_by_id k a ≡ some i)
  completed_cases p g k i gs w e =
      let (y, old, same) = found_before k p.order_id g a b (λ o. (gs o).0) w e in
      let key : (y.id == k) ≡ true = find_sound (λ z. z.id == k) a.orders old in
      elim (Bool-cases (y.id == p.order_id)) [
        | inl t ↦
            let updated : i ≡ g y = ground (arith, t, same) in
            inl (ground (arith, key, t), ap (λ o. o.payment_status) updated ∙ (gs y).1)
        | inr t ↦ inr (old ∙ ground (arith, t, same))
      ]

  pub Write-Keys : {S : ℕ → Type 0} → Write S a b → Keys b
  Write-Keys (opened o q e n new w v) = record {
    ids = subst (UniqueBy same_payment) (sym v) (new.fresh, keys.ids);
    transactions = subst (UniqueBy same_transaction) (sym v) (new.untaken, keys.transactions);
  }
  Write-Keys (failed p f r e t m w v) =
      mark-Keys PaymentStatus.failed f m (payment_id_is p.id) a b keys v
  Write-Keys (completed p f g e t m gs w v) =
      mark-Keys PaymentStatus.completed f m (payment_id_is p.id) a b keys v

  Write-Backed : {S : ℕ → Type 0} → Backed a → Write S a b → Backed b
  Write-Backed x (opened o q e n new w v) k i there h =
      let (y, old, p) = not_paid k o.id initiates a b (λ z. refl) (λ z j. cc) w there h in
      let still : exists (settled_for k) a.payments ≡ true = x k y old p in
      ap (λ r. exists (settled_for k) r) v ∙ ground (arith, still)
  Write-Backed x (failed p f r e t m w v) k o there h =
      kept (settled_for k) f a b p (settled_is_completed k) keys e (ground (arith, t)) v
        (frees-Backed a b p.order_id r w x k o there h)
  Write-Backed x (completed p f g e t m gs w v) k o there h =
      elim (completed_cases p g k o gs w there) [
        | inl (i, _) ↦
            ap (λ r. exists (settled_for k) r) v
            ∙ exists-update_made (settled_for k) (payment_id_is p.id) f a.payments e
                (ground (arith, (m p).1, (m p).3, i))
        | inr old ↦ kept (settled_for k) f a b p (settled_is_completed k) keys e t v (x k o old h)
      ]

  Write-completed :
      {S : ℕ → Type 0} (c : Payment → Bool)
      → ((y : Payment) → c y ≡ true → is_completed y ≡ true)
      → Write S a b
      → exists c a.payments ≡ true
      → exists c b.payments ≡ true
  Write-completed c k (opened o q e n new w v) h = ap (λ r. exists c r) v ∙ ground (arith, h)
  Write-completed c k (failed p f r e t m w v) h = kept c f a b p k keys e (ground (arith, t)) v h
  Write-completed c k (completed p f g e t m gs w v) h = kept c f a b p k keys e t v h

module _ (k : ℕ) (a b : Db) (x : Tidy k a) where
  opened_sole :
      (o : Order) (q : Payment)
      → IsNew q o a
      → ((o.id == k) ≡ true → exists (pending_for k) a.payments ≡ false)
      → exists (rivals k q) a.payments ≡ false
  opened_sole o q n e = elim (Bool-cases (o.id == k)) [
    | inl t ↦ exists_weaken (rivals k q) (pending_for k) a.payments (λ y h. ground (arith, h)) (e t)
    | inr t ↦ no_rival k q a.payments (ground (arith, n.of_order, t))
  ]

  opened_Idle :
      (o : Order) (q : Payment)
      → IsNew q o a
      → b.orders ≡ update (order_id_is o.id) initiates a.orders
      → b.payments ≡ q ∷ a.payments
      → Idle k b
  opened_Idle o q n w v i e h =
      let (y, there, same) = found_before k o.id initiates a b (λ z. refl) w e in
      let key : (y.id == k) ≡ true = find_sound (λ z. z.id == k) a.orders there in
      elim (Bool-cases (y.id == o.id)) [
        | inl t ↦ ground (arith, t, same, h)
        | inr t ↦
            ap (λ r. exists (pending_for k) r) v
            ∙ open_none k q o a n (ground (arith, key, t))
                (x.idle y there (ground (arith, t, same, h)))
      ]

  failed_Idle :
      (p : Payment) (f : Payment → Payment) (r : Bool)
      → find (payment_id_is p.id) a.payments ≡ some p
      → is_terminal p.status ≡ false
      → Marks PaymentStatus.failed f
      → b.orders ≡ (if r then update (order_id_is p.order_id) frees a.orders else a.orders)
      → b.payments ≡ update (payment_id_is p.id) f a.payments
      → Idle k b
  failed_Idle p f r e n m w v i there h =
      ap (λ t. exists (pending_for k) t) v ∙ elim (Bool-cases (p.order_id == k)) [
        | inl t ↦
            sole_gone PaymentStatus.failed f m refl k a.payments p x.sole e
              (ground (arith, t, pending_of k a p x.none_refunded e n t))
        | inr t ↦
            mark_idle PaymentStatus.failed f m (payment_id_is p.id) refl k a.payments (before r t w)
      ]
    where
      before :
          (r : Bool)
          → (p.order_id == k) ≡ false
          → b.orders ≡ (if r then update (order_id_is p.order_id) frees a.orders else a.orders)
          → exists (pending_for k) a.payments ≡ false
      before false t w = x.idle i (ap (find (order_id_is k)) (sym w) ∙ there) h
      before true t w =
          let (y, old, same) = found_before k p.order_id frees a b (λ z. refl) w there in
          let key : (y.id == k) ≡ true = find_sound (λ z. z.id == k) a.orders old in
          x.idle y old (ground (arith, key, t, same, h))

  Write-Tidy : {S : ℕ → Type 0} → Keys a → S k → Write S a b → Tidy k b
  Write-Tidy {S} keys holds (opened o q e n new w v) = record {
    none_refunded =
        ap (λ r. exists (refunded_for k) r) v ∙ ground (arith, new.pending, x.none_refunded);
    sole = subst (UniqueBy (rivals k)) (sym v) (
      opened_sole o q new (λ t.
          let same : o.id ≡ k = ground (arith, t) in
          ap (λ i. exists (pending_for i) a.payments) (sym same) ∙ n (subst S (sym same) holds)),
      x.sole,
    );
    idle = opened_Idle o q new w v;
  }
  Write-Tidy keys holds (failed p f r e t m w v) = record {
    none_refunded =
        ap (λ r. exists (refunded_for k) r) v
        ∙ mark_none_refunded PaymentStatus.failed f m (payment_id_is p.id) refl k a.payments
            x.none_refunded;
    sole =
        subst (UniqueBy (rivals k)) (sym v)
          (mark_sole PaymentStatus.failed f m (payment_id_is p.id) refl k a.payments x.sole);
    idle = failed_Idle p f r e t m w v;
  }
  Write-Tidy keys holds (completed p f g e t m gs w v) = record {
    none_refunded =
        ap (λ r. exists (refunded_for k) r) v
        ∙ mark_none_refunded PaymentStatus.completed f m (payment_id_is p.id) refl k a.payments
            x.none_refunded;
    sole =
        subst (UniqueBy (rivals k)) (sym v)
          (mark_sole PaymentStatus.completed f m (payment_id_is p.id) refl k a.payments x.sole);
    idle = λ o there h. elim (completed_cases a b keys p g k o gs w there) [
      | inl (_, i) ↦ ground (arith, i, h)
      | inr old ↦
          ap (λ r. exists (pending_for k) r) v
          ∙ mark_idle PaymentStatus.completed f m (payment_id_is p.id) refl k a.payments
              (x.idle o old h)
    ];
  }

module _ {S : ℕ → Type 0} where
  pub Writes-Keys : (a b : Db) → Keys a → Writes S a b → Keys b
  Writes-Keys a b x (nothing e) = subst Keys (sym e) x
  Writes-Keys a b x (more {m = m} w ws) = Writes-Keys m b (Write-Keys a m x w) ws

  pub Writes-Backed : (a b : Db) → Keys a → Backed a → Writes S a b → Backed b
  Writes-Backed a b k x (nothing e) = subst Backed (sym e) x
  Writes-Backed a b k x (more {m = m} w ws) =
      Writes-Backed m b (Write-Keys a m k w) (Write-Backed a m k x w) ws

  pub Writes-Calm : (a b : Db) → Keys a → Calm S a → Writes S a b → Calm S b
  Writes-Calm a b k x (nothing e) = subst (Calm S) (sym e) x
  Writes-Calm a b k x (more {m = m} w ws) =
      Writes-Calm m b (Write-Keys a m k w) (λ j s. Write-Tidy j a m (x j s) k s w) ws

  pub Writes-completed :
      (c : Payment → Bool) (a b : Db)
      → ((y : Payment) → c y ≡ true → is_completed y ≡ true)
      → Keys a
      → Writes S a b
      → exists c a.payments ≡ true
      → exists c b.payments ≡ true
  Writes-completed c a b k x (nothing e) h = ap (λ d. exists c d.payments) e ∙ h
  Writes-completed c a b k x (more {m = m} w ws) h =
      Writes-completed c m b k (Write-Keys a m x w) ws (Write-completed a m x c k w h)
