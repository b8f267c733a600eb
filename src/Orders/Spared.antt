-- ===== src/Orders/Spared.antt =====
-- What the expiry worker touches: which orders its query returns, and which orders it leaves alone
-- (server/src/modules/orders/orders-expiry.processor.ts and orders.store.ts).
use mathlib.Core.Bool.{false≢true}
use mathlib.Core.List.{Memᴰ}
use gramoz.Common.{
  ℕ, ◌≤◌, ◌≡◌, refl, ap, ◌∙◌, sym, Bool, true, false, not, ◌&&◌, some, List, [], ◌∷◌, arith,
  Bool-cases, inl, inr, length,
}
use gramoz.Table.{find, select}
use gramoz.Table.Laws.{find_sound, find-changed}
use gramoz.Schema.{Db}
use gramoz.Schema.Enums.{OrderStatus, order_status_eq}
use gramoz.Schema.Rows.{Order}
use gramoz.Tx.{Result, ok, err}
use gramoz.Orders.Store.{find_order_by_id, order_id_is, is_cancellable, cancelled_row}
use gramoz.Orders.Cancel.{cancel_order_internal, is_paid, expire_order}
use gramoz.Orders.Expiry.{
  is_stale, oldest_first, find_stale_unpaid_orders, expire_all, counted,
  process_stale_checkout_expiry,
}
use gramoz.Orders.Stale.{Abandoned, limit-length, found-Abandoned}
use gramoz.Orders.Lifecycle.{cancel-Moved, cancel_needs}

-- An order that may still expire: pending, and not paid.
abbrev pub open_order : Order → Bool
open_order o = order_status_eq o.status OrderStatus.pending && not (is_paid o)

still_open :
    (o : Order) → (o.status ≡ OrderStatus.pending) × (is_paid o ≡ false) → open_order o ≡ true
still_open o h = ground (arith, h)

spared_by_one :
    (now id k : ℕ) (a b : Db) (o : Order) {c : Order}
    → open_order o ≡ false
    → find_order_by_id k a ≡ some o
    → cancel_order_internal now id true a ≡ ok (c, b)
    → find_order_by_id k b ≡ some o
spared_by_one now id k a b o n f h =
    let m = cancel-Moved now id true a h in
    let (x, g, _, expirable) = cancel_needs now id true a h in
    elim (Bool-cases (is_cancellable id o)) [
      | inl hit ↦
          let mine = find_sound (order_id_is k) a.orders f in
          let same : id ≡ k = ground (arith, mine, hit) in
          let alike : x ≡ o = ground (arith, g, ap (λ j. find_order_by_id j a) same ∙ f) in
          absurd (false≢true (sym n ∙ ap open_order (sym alike) ∙ still_open x (expirable refl)))
      | inr miss ↦
          ap (find (order_id_is k)) m.orders
          ∙ find-changed (order_id_is k) (is_cancellable id) cancelled_row a.orders (λ x. refl) f
          ∙ ground (arith, miss)
    ]

spared_by_expiry :
    (now id k : ℕ) (a : Db) (o : Order)
    → open_order o ≡ false
    → find_order_by_id k a ≡ some o
    → find_order_by_id k (expire_order now id a).1 ≡ some o
unfolding expire_order
spared_by_expiry now id k a o n f = go (cancel_order_internal now id true a) refl
  where
    go :
        (s : Result (Order × Db))
        → cancel_order_internal now id true a ≡ s
        → (let t : Result Order × Db = elim s [ ok r ↦ (ok r.0, r.1) | err e ↦ (err e, a) ] in
            find_order_by_id k t.1)
          ≡ some o
    go (ok r) e = spared_by_one now id k a r.1 o n f e
    go (err x) e = f

counted-db : (s : Result Order × Db) (acc : ℕ × Db) → (counted s acc).1 ≡ s.1
counted-db (ok _, b) (n, _) = refl
counted-db (err _, b) (n, _) = refl

spared_by_all :
    (now k : ℕ) (os : List Order) (acc : ℕ × Db) (o : Order)
    → open_order o ≡ false
    → find_order_by_id k acc.1 ≡ some o
    → find_order_by_id k (expire_all now os acc).1 ≡ some o
unfolding expire_all
spared_by_all now k [] acc o c f = f
spared_by_all now k (x ∷ os) acc o c f =
    spared_by_all now k os (counted (expire_order now x.id acc.1) acc) o c (
      ap (find_order_by_id k) (counted-db (expire_order now x.id acc.1) acc)
      ∙ spared_by_expiry now x.id k acc.1 o c f)

-- The worker's query returns at most ten orders, and each is a row of the table that is pending, not
-- paid, placed more than `expiry` minutes ago, without a payment by cash on delivery, and without a
-- pending payment that was touched in the last `buffer` minutes.
pub stale_orders :
    (now expiry buffer : ℕ) (db : Db)
    → (length (find_stale_unpaid_orders now expiry buffer db) ≤ 10)
      × ((o : Order)
          → Memᴰ o (find_stale_unpaid_orders now expiry buffer db)
          → Abandoned now expiry buffer db o)
unfolding find_stale_unpaid_orders
stale_orders now expiry buffer db = (
  limit-length 10 (oldest_first (select (is_stale now expiry buffer db) db.orders)),
  λ o m. found-Abandoned now expiry buffer db o m,
)

-- The worker cancels nothing that is settled: an order that is not pending, or that is paid, has the
-- same row after a run of the expiry worker, whatever the worker expires.
pub expiry_spares :
    (now expiry k : ℕ) (db : Db) (o : Order)
    → find_order_by_id k db ≡ some o
    → open_order o ≡ false
    → find_order_by_id k (process_stale_checkout_expiry now expiry db).1 ≡ some o
unfolding process_stale_checkout_expiry
expiry_spares now expiry k db o f c =
    spared_by_all now k (find_stale_unpaid_orders now expiry 15 db) (0, db) o c f
