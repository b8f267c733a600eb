-- ===== src/Promos.antt =====
-- Promotions: server/src/modules/promos/promos.service.ts, with the two statements of the orders'
-- store on the usage counter. Amounts are in hundredths, so a percentage is in hundredths of one
-- percent; `Math.round` is written out as rounding half up.
pub mod Usage
use gramoz.Common.{
  ℕ, ◌+◌, ◌-◌, ◌*◌, ◌/◌, min, String, Bool, true, false, not, ◌&&◌, Option, none, some, List, ◌∷◌,
  ltb, leb, ◌==◌, if◌then◌else◌, is_some, str_eq,
}
use gramoz.Table.{find, select, update, delete, exists}
use gramoz.Schema.{Db}
use gramoz.Schema.Enums.{DiscountType, percentage, fixed}
use gramoz.Schema.Rows.{Promo}
use gramoz.Tx.{
  Tx, pure, read, write, ◌>>=◌, ◌>>◌, throw_if, or_throw, entity_not_found, entity_conflict,
  invalid_operation, promo_invalid_code, promo_inactive, promo_expired, promo_exhausted,
  promo_minimum, promo_not_found, promo_code_exists, discount_not_positive, percentage_over_100,
  max_uses_below_1,
}

pub record CreatePromoDto : Type 0 where
  pub code : String
  pub discount_type : DiscountType
  pub discount_value : ℕ
  pub min_order_value : Option ℕ
  pub max_uses : Option ℕ
  pub expires_at : Option ℕ
  pub is_active : Option Bool

abbrev pub has_code : String → Promo → Bool
has_code c p = str_eq p.code c

abbrev pub has_id : ℕ → Promo → Bool
has_id id p = p.id == id

abbrev is_percentage : DiscountType → Bool
is_percentage percentage = true
is_percentage fixed = false

-- JavaScript takes 0 for absent in `x ? … : …`.
abbrev pub truthy : Option ℕ → Option ℕ
truthy none = none
truthy (some n) = if n == 0 then none else some n

abbrev at_most_0 : Option ℕ → Bool
at_most_0 none = false
at_most_0 (some n) = ltb n 1

abbrev or_true : Option Bool → Bool
or_true none = true
or_true (some b) = b

-- `create`; `normalize` is `trim().toUpperCase()` and `id` the new row's uuid. Amounts are not
-- negative here, so the check on a negative minimum is left out.
unfoldable pub create : (normalize : String → String) (id : ℕ) → CreatePromoDto → Tx Promo
create normalize id dto = do
  throw_if (dto.discount_value == 0) (invalid_operation discount_not_positive)
  throw_if (is_percentage dto.discount_type && ltb 10_000 dto.discount_value)
      (invalid_operation percentage_over_100)
  throw_if (at_most_0 dto.max_uses) (invalid_operation max_uses_below_1)
  existing ← read (λ db. find (has_code (normalize dto.code)) db.promos)
  throw_if (is_some existing) (entity_conflict promo_code_exists)
  let promo : Promo = record {
    id = id;
    code = normalize dto.code;
    discount_type = dto.discount_type;
    discount_value = dto.discount_value;
    min_order_value = truthy dto.min_order_value;
    max_uses = dto.max_uses;
    current_uses = 0;
    expires_at = dto.expires_at;
    is_active = or_true dto.is_active;
  }
  write (λ db. record db { promos = promo ∷ db.promos })
  pure promo

-- `gt(expiresAt, now)` or no expiry
abbrev pub not_expired : ℕ → Promo → Bool
not_expired now p = elim p.expires_at [ none ↦ true | some t ↦ ltb now t ]

-- `currentUses < maxUses` or no limit
abbrev pub not_exhausted : Promo → Bool
not_exhausted p = elim p.max_uses [ none ↦ true | some m ↦ ltb p.current_uses m ]

unfoldable pub find_public_active : ℕ → Db → List Promo
find_public_active now db =
    select (λ p. p.is_active && not_expired now p && not_exhausted p) db.promos

unfoldable pub toggle_active : ℕ → Tx (Option Promo)
toggle_active id = do
  promo ← or_throw (← read (λ db. find (has_id id) db.promos)) (entity_not_found promo_not_found)
  write (λ db. record db {
    promos = update (has_id id) (λ p. record p { is_active = not promo.is_active }) db.promos;
  })
  read (λ db. find (has_id id) db.promos)

-- `delete`, a reserved word there and a query here
unfoldable pub delete_promo : ℕ → Tx Promo
delete_promo id = do
  promo ← or_throw (← read (λ db. find (has_id id) db.promos)) (entity_not_found promo_not_found)
  write (λ db. record db { promos = delete (has_id id) db.promos })
  pure promo

abbrev pub expired_at : ℕ → Promo → Bool
expired_at now p = elim p.expires_at [ none ↦ false | some t ↦ ltb t now ]

abbrev pub exhausted : Promo → Bool
exhausted p = elim (truthy p.max_uses) [ none ↦ false | some m ↦ leb m p.current_uses ]

abbrev pub below_minimum : ℕ → Promo → Bool
below_minimum subtotal p = elim p.min_order_value [ none ↦ false | some m ↦ ltb subtotal m ]

-- The discount in cents, before the cap at the subtotal.
unfoldable pub raw_discount : Promo → ℕ → ℕ
raw_discount p subtotal = elim p.discount_type [
  | percentage ↦ (2 * (subtotal * p.discount_value) + 10_000) / 20_000
  | fixed ↦ p.discount_value
]

pub record PromoResult : Type 0 where
  pub promo_id : ℕ
  pub discount_amount : ℕ

-- `validate`, of the subtotal in cents
unfoldable pub validate :
    (to_upper : String → String) (now : ℕ) (code : String) (subtotal : ℕ) → Tx PromoResult
unfolding raw_discount
validate to_upper now code subtotal = do
  promo ←
      or_throw (← read (λ db. find (has_code (to_upper code)) db.promos))
        (entity_not_found promo_invalid_code)
  throw_if (not promo.is_active) (invalid_operation promo_inactive)
  throw_if (expired_at now promo) (invalid_operation promo_expired)
  throw_if (exhausted promo) (invalid_operation promo_exhausted)
  throw_if (below_minimum subtotal promo) (invalid_operation promo_minimum)
  pure
      (record { promo_id = promo.id; discount_amount = min (raw_discount promo subtotal) subtotal })

abbrev pub can_use : ℕ → ℕ → Promo → Bool
can_use id now p = has_id id p && p.is_active && not_expired now p && not_exhausted p

-- `incrementPromoUsage`: true if a row was updated
unfoldable pub increment_usage : ℕ → ℕ → Tx Bool
increment_usage id now = do
  updated ← read (λ db. exists (can_use id now) db.promos)
  write (λ db. record db {
    promos =
        update (can_use id now) (λ p. record p { current_uses = p.current_uses + 1 }) db.promos;
  })
  pure updated

-- `decrementPromoUsage`: GREATEST(0, currentUses - 1), which is what `-` on ℕ gives
unfoldable pub decrement_usage : ℕ → Db → Db
decrement_usage id db = record db {
  promos =
      update (λ p. has_id id p && ltb 0 p.current_uses)
        (λ p. record p { current_uses = p.current_uses - 1 }) db.promos;
}
