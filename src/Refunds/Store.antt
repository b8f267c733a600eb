-- ===== src/Refunds/Store.antt =====
-- The statements of server/src/modules/refunds/refunds.store.ts. The id of a new row comes with the
-- call.
use gramoz.Common.{ℕ, Bool, true, false, not, ◌&&◌, Option, none, some, List, ◌∷◌, ◌==◌}
use gramoz.Table.{find, select, update, exists}
use gramoz.Schema.{Db}
use gramoz.Schema.Enums.{
  PaymentStatus, RefundStatus, inward, outward, payment_status_eq, refund_status_eq,
}
use gramoz.Schema.Rows.{Refund, Payment, InventoryTransaction}
use gramoz.Tx.{Tx, pure, read, write, throw_if, ◌>>=◌, ◌>>◌, other_error, unique_violation}
use gramoz.Payments.Store.{latest}

abbrev pub refund_id_is : ℕ → Refund → Bool
refund_id_is id r = r.id == id

-- `findRefundById` and `findRefundByIdForUpdate`
abbrev pub find_refund_by_id : ℕ → Db → Option Refund
find_refund_by_id id db = find (refund_id_is id) db.refunds

abbrev pub is_active : Refund → Bool
is_active r = not (refund_status_eq r.status RefundStatus.rejected)

-- The rows of the unique index: those of an order that are not rejected.
abbrev pub active_for : (order : ℕ) → Refund → Bool
active_for order r = r.order_id == order && is_active r

unfoldable pub find_active_refund : (order : ℕ) → Db → Option Refund
find_active_refund order db = find (active_for order) db.refunds

unfoldable pub create_refund : Refund → Tx Refund
create_refund row = do
  throw_if (← read (λ db. is_active row && exists (active_for row.order_id) db.refunds))
      (other_error unique_violation)
  write (λ db. record db { refunds = row ∷ db.refunds })
  pure row

-- The unique index against the other rows.
abbrev pub clashes : Refund → List Refund → Bool
clashes row rows =
    is_active row && exists (λ r. not (r.id == row.id) && active_for row.order_id r) rows

abbrev pub update_clashes : ℕ → (Refund → Refund) → Db → Bool
update_clashes id f db = elim (find_refund_by_id id db) [
  | none ↦ false
  | some r ↦ clashes (f r) db.refunds
]

-- `updateRefund`, with what it sets as a function; the row as it is after
unfoldable pub update_refund : ℕ → (Refund → Refund) → Tx (Option Refund)
update_refund id f = do
  throw_if (← read (update_clashes id f)) (other_error unique_violation)
  write (λ db. record db { refunds = update (refund_id_is id) f db.refunds })
  read (find_refund_by_id id)

unfoldable pub find_completed_payment : (order : ℕ) → Db → Option Payment
find_completed_payment order db = latest (
    select (λ p. p.order_id == order && payment_status_eq p.status PaymentStatus.completed)
      db.payments)

abbrev pub is_inward : InventoryTransaction → Bool
is_inward t = elim t.transaction_type [ inward ↦ true | outward ↦ false ]

abbrev pub refers : ℕ → InventoryTransaction → Bool
refers id t = elim t.reference_id [ none ↦ false | some r ↦ r == id ]

-- `hasOrderBeenRestocked` and `hasRefundBeenRestocked`
unfoldable pub has_been_restocked : (reference : ℕ) → Db → Bool
has_been_restocked id db = exists (λ t. refers id t && is_inward t) db.inventory
