-- ===== src/Tx.antt =====
-- Errors as values and database transactions. A `Tx` is what runs inside `db.transaction`; it
-- either fails, and then its writes are lost, or gives a result and the new database
-- (server/src/common/errors/domain.errors.ts).
pub mod Post
pub mod Calls
use gramoz.Common.{Bool, true, false, Option, none, some, ◌≡◌, refl, List, [], ◌∷◌}
use gramoz.Schema.{Db}

-- Why a call was refused: one name for each message of the services.
pub data Reason : Type 0 where
  key_reused checkout_in_progress cart_empty insufficient_stock sold_out : Reason
  order_not_found not_own_order already_cancelled not_cancellable changed_concurrently : Reason
  only_pending_expires already_paid invalid_status invalid_transition : Reason
  promo_invalid_code promo_inactive promo_expired promo_exhausted promo_minimum : Reason
  promo_just_exhausted promo_not_found promo_code_exists : Reason
  discount_not_positive percentage_over_100 max_uses_below_1 : Reason
  points_not_positive insufficient_points zone_not_found unique_violation : Reason
  quantity_not_positive product_not_found product_unavailable variant_not_found : Reason
  variant_of_other stock_exceeded cart_item_not_found : Reason
  not_your_order order_is_cancelled payment_exists already_paid_order payment_in_progress : Reason
  invalid_method user_not_found gateway_unreachable payment_not_found : Reason
  verification_failed : Reason
  refund_amount_not_positive not_own_refund not_delivered refund_exists refund_over_total : Reason
  refund_not_found refund_settled refund_in_flight cod_reference_missing : Reason
  refund_rejected_by_provider no_gateway_reference : Reason
  address_not_found address_in_use payment_record_missing payment_not_completed
        refund_amount_invalid bank_id_missing linked_order_missing :
      Reason

-- The classes of domain.errors.ts, the framework's BadRequestException, and other exceptions.
pub data Error : Type 0 where
  entity_not_found entity_conflict insufficient_stock_error forbidden_operation invalid_operation
        bad_request other_error :
      Reason → Error

pub data Result {ℓ} (A : Type ℓ) : Type ℓ where
  ok : A → Result A
  err : Error → Result A

abbrev pub Tx : Type 0 → Type 0
Tx A = Db → Result (A × Db)

abbrev pub pure : {A : Type 0} → A → Tx A
pure a db = ok (a, db)

abbrev pub throw : {A : Type 0} → Error → Tx A
throw e db = err e

abbrev pub read : {A : Type 0} → (Db → A) → Tx A
read f db = ok (f db, db)

abbrev pub write : (Db → Db) → Tx (Unit {0})
write f db = ok (tt, f db)

infixl 5 ◌>>=◌ ◌>>◌
abbrev pub ◌>>=◌ : {A B : Type 0} → Tx A → (A → Tx B) → Tx B
◌>>=◌ m f db = elim (m db) [ ok r ↦ f r.0 r.1 | err e ↦ err e ]

abbrev pub ◌>>◌ : {B : Type 0} → Tx (Unit {0}) → Tx B → Tx B
m >> k = m >>= λ _. k

-- `if (c) throw e`
abbrev pub throw_if : Bool → Error → Tx (Unit {0})
throw_if true e db = err e
throw_if false e db = ok (tt, db)

-- `if (c) { … }`
abbrev pub when : Bool → Tx (Unit {0}) → Tx (Unit {0})
when true m db = m db
when false m db = ok (tt, db)

-- `if (!row) throw e`
abbrev pub or_throw : {A : Type 0} → Option A → Error → Tx A
or_throw none e db = err e
or_throw (some a) e db = ok (a, db)

-- `for (const x of xs) await f(x)`
unfoldable pub for_each : {A : Type 0} → (A → Tx (Unit {0})) → List A → Tx (Unit {0})
for_each f [] db = ok (tt, db)
for_each f (x ∷ xs) db = (f x >> for_each f xs) db

-- What a caller of `runTransaction` sees: a failed transaction leaves the database as it was.
abbrev pub run_transaction : {A : Type 0} → Tx A → Db → Result A × Db
run_transaction m db = elim (m db) [ ok r ↦ (ok r.0, r.1) | err e ↦ (err e, db) ]

-- A service call that commits as it goes: what a later failure leaves is what was committed.
abbrev pub Call : Type 0 → Type 0
Call A = Db → Result A × Db

infixl 5 ◌>>>◌
abbrev pub ◌>>>◌ : {A B : Type 0} → Call A → (A → Call B) → Call B
◌>>>◌ m f db = elim (m db).0 [ ok a ↦ f a (m db).1 | err e ↦ (err e, (m db).1) ]
