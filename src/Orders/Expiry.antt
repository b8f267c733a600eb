-- ===== src/Orders/Expiry.antt =====
-- The expiry worker: server/src/modules/orders/orders-expiry.processor.ts and the query
-- `findStaleUnpaidOrdersForExpiry` of orders.store.ts. Times are in milliseconds.
use gramoz.Common.{
  ℕ, ◌+◌, ◌*◌, Bool, false, not, ◌&&◌, none, some, List, [], ◌∷◌, ltb, leb, ◌==◌, if◌then◌else◌,
  str_eq,
}
use gramoz.Table.{select, exists}
use gramoz.Schema.{Db}
use gramoz.Schema.Enums.{OrderStatus, order_status_eq, payment_is_pending}
use gramoz.Schema.Rows.{Order, Payment}
use gramoz.Tx.{Result, ok, err}
use gramoz.Orders.Cancel.{expire_order, is_paid}

abbrev pub minute : ℕ
minute = 60_000

abbrev pub is_cod : Payment → Bool
is_cod p = elim p.method [ none ↦ false | some m ↦ str_eq m "COD" ]

-- t < NOW() - INTERVAL: the difference may not be taken on ℕ
abbrev pub older : ℕ → ℕ → ℕ → Bool
older now minutes t = ltb (t + minutes * minute) now

abbrev pub is_stale : (now expiry buffer : ℕ) → Db → Order → Bool
is_stale now expiry buffer db o =
    order_status_eq o.status OrderStatus.pending
    && older now expiry o.created_at
    && not (is_paid o)
    && not (exists (λ p. p.order_id == o.id && is_cod p) db.payments)
    && not (
        exists
          (λ p.
            p.order_id == o.id
            && payment_is_pending p.status
            && leb now (p.updated_at + buffer * minute))
          db.payments)

-- ORDER BY created_at
unfoldable pub insert_oldest : Order → List Order → List Order
insert_oldest o [] = o ∷ []
insert_oldest o (x ∷ xs) =
    if leb o.created_at x.created_at then o ∷ x ∷ xs else x ∷ insert_oldest o xs

unfoldable pub oldest_first : List Order → List Order
unfolding insert_oldest
oldest_first [] = []
oldest_first (o ∷ os) = insert_oldest o (oldest_first os)

-- LIMIT
unfoldable pub limit : ℕ → List Order → List Order
limit ℕ.zero os = []
limit (ℕ.suc n) [] = []
limit (ℕ.suc n) (o ∷ os) = o ∷ limit n os

unfoldable pub find_stale_unpaid_orders : (now expiry buffer : ℕ) → Db → List Order
unfolding oldest_first limit
find_stale_unpaid_orders now expiry buffer db =
    limit 10 (oldest_first (select (is_stale now expiry buffer db) db.orders))

-- The loop of `processStaleCheckoutExpiry`: what fails is logged and passed over.
abbrev pub counted : Result Order × Db → ℕ × Db → ℕ × Db
counted (ok _, db) (n, _) = (n + 1, db)
counted (err _, db) (n, _) = (n, db)

unfoldable pub expire_all : ℕ → List Order → ℕ × Db → ℕ × Db
expire_all now [] acc = acc
expire_all now (o ∷ os) acc = expire_all now os (counted (expire_order now o.id acc.1) acc)

unfoldable pub process_stale_checkout_expiry : (now expiry : ℕ) → Db → ℕ × Db
unfolding find_stale_unpaid_orders expire_all
process_stale_checkout_expiry now expiry db =
    expire_all now (find_stale_unpaid_orders now expiry 15 db) (0, db)
