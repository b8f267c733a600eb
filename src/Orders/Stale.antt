-- ===== src/Orders/Stale.antt =====
-- What the query of the expiry worker selects: `findStaleUnpaidOrders` of
-- server/src/modules/orders/orders.store.ts.
use mathlib.Core.List.{Memᴰ}
use gramoz.Common.{
  ℕ, ◌+◌, ◌*◌, ◌<◌, ◌≤◌, ◌≡◌, ◌≢◌, refl, ap, ◌∙◌, Bool, true, false, some, List, [], ◌∷◌, arith,
  leb, ◌==◌, ◌&&◌, if◌then◌else◌, str_eq_iff, length,
}
use gramoz.Table.{exists}
use gramoz.Table.Update.{select-Memᴰ}
use gramoz.Schema.{Db}
use gramoz.Schema.Enums.{OrderStatus, OrderPaymentStatus, PaymentStatus, payment_is_pending}
use gramoz.Schema.Rows.{Order, Payment}
use gramoz.Orders.Expiry.{
  minute, is_stale, is_cod, insert_oldest, oldest_first, limit, find_stale_unpaid_orders,
}

-- An abandoned order: pending, not paid, placed more than `expiry` minutes ago, without a payment by
-- cash on delivery, and without a pending payment that was touched in the last `buffer` minutes.
pub record Abandoned (now expiry buffer : ℕ) (db : Db) (o : Order) : Type 0 where
  pub there : Memᴰ o db.orders
  pub pending : o.status ≡ OrderStatus.pending
  pub unpaid : o.payment_status ≢ OrderPaymentStatus.paid
  pub old : o.created_at + expiry * 60_000 < now
  pub no_cash : (p : Payment) → Memᴰ p db.payments → p.order_id ≡ o.id → p.method ≢ some "COD"
  pub no_live :
      (p : Payment)
      → Memᴰ p db.payments
      → p.order_id ≡ o.id
      → p.status ≡ PaymentStatus.pending
      → p.updated_at + buffer * 60_000 < now

inserted :
    (b : Bool) {o x y : Order} {os rest : List Order}
    → (Memᴰ o rest → Memᴰ o (x ∷ os))
    → Memᴰ o (if b then x ∷ y ∷ os else y ∷ rest)
    → Memᴰ o (x ∷ y ∷ os)
inserted true k m = m
inserted false k (Memᴰ.head e) = Memᴰ.tail (Memᴰ.head e)
inserted false k (Memᴰ.tail n) = elim (k n) [
  | Memᴰ.head e ↦ Memᴰ.head e
  | Memᴰ.tail t ↦ Memᴰ.tail (Memᴰ.tail t)
]

insert-Memᴰ : (o x : Order) (os : List Order) → Memᴰ o (insert_oldest x os) → Memᴰ o (x ∷ os)
unfolding insert_oldest
insert-Memᴰ o x [] m = m
insert-Memᴰ o x (y ∷ os) m = inserted (leb x.created_at y.created_at) (λ n. insert-Memᴰ o x os n) m

oldest-Memᴰ : (o : Order) (os : List Order) → Memᴰ o (oldest_first os) → Memᴰ o os
unfolding oldest_first
oldest-Memᴰ o [] m = m
oldest-Memᴰ o (x ∷ os) m = elim (insert-Memᴰ o x (oldest_first os) m) [
  | Memᴰ.head e ↦ Memᴰ.head e
  | Memᴰ.tail k ↦ Memᴰ.tail (oldest-Memᴰ o os k)
]

limit-Memᴰ : (n : ℕ) (o : Order) (os : List Order) → Memᴰ o (limit n os) → Memᴰ o os
unfolding limit
limit-Memᴰ ℕ.zero o os m = elim m [ ]
limit-Memᴰ (ℕ.suc n) o [] m = m
limit-Memᴰ (ℕ.suc n) o (x ∷ os) (Memᴰ.head e) = Memᴰ.head e
limit-Memᴰ (ℕ.suc n) o (x ∷ os) (Memᴰ.tail k) = Memᴰ.tail (limit-Memᴰ n o os k)

pub limit-length : (n : ℕ) (os : List Order) → length (limit n os) ≤ n
unfolding limit
limit-length ℕ.zero os = omega arith
limit-length (ℕ.suc n) [] = omega arith
limit-length (ℕ.suc n) (o ∷ os) = omega (arith, limit-length n os)

none_of :
    (q : Payment → Bool) (ps : List Payment) {p : Payment}
    → exists q ps ≡ false
    → Memᴰ p ps
    → q p ≡ false
none_of q [] n m = elim m [ ]
none_of q (x ∷ ps) n (Memᴰ.head e) = ap q e ∙ ground (arith, n)
none_of q (x ∷ ps) n (Memᴰ.tail m) = none_of q ps (ground (arith, n)) m

is_cod_of : (p : Payment) → p.method ≡ some "COD" → is_cod p ≡ true
is_cod_of p e = ground (arith, e, (str_eq_iff "COD" "COD").1 refl)

stale-Abandoned :
    (now expiry buffer : ℕ) (db : Db) (o : Order)
    → Memᴰ o db.orders
    → is_stale now expiry buffer db o ≡ true
    → Abandoned now expiry buffer db o
stale-Abandoned now expiry buffer db o m h = record {
  there = m;
  pending = ground (arith, h);
  unpaid = λ e. ground (arith, h, e);
  old = ground (arith, h);
  no_cash = λ p there own cash.
      let none_there =
        none_of (λ p. p.order_id == o.id && is_cod p) db.payments (ground (arith, h)) there in
      ground (arith, none_there, own, is_cod_of p cash);
  no_live = λ p there own live.
      let none_there =
        none_of
          (λ p.
            p.order_id == o.id
            && payment_is_pending p.status
            && leb now (p.updated_at + buffer * minute))
          db.payments (ground (arith, h)) there in
      ground (arith, none_there, own, live);
}

pub found-Abandoned :
    (now expiry buffer : ℕ) (db : Db) (o : Order)
    → Memᴰ o (find_stale_unpaid_orders now expiry buffer db)
    → Abandoned now expiry buffer db o
unfolding find_stale_unpaid_orders
found-Abandoned now expiry buffer db o m =
    let (there, stale) =
      select-Memᴰ (is_stale now expiry buffer db) db.orders
        (oldest-Memᴰ o _ (limit-Memᴰ 10 o _ m)) in
    stale-Abandoned now expiry buffer db o there stale
