-- ===== src/Orders/Checkout/Amounts.antt =====
-- The amounts of a checkout: the discount of a promotion and the value of the points
-- (server/src/modules/orders/orders.service.ts, server/src/modules/promos/promos.service.ts).
use native.Mathlib.Nat.{mul-le-mul_left, mul-div-le, lt-mul-div-succ, lt_of_mul-lt-mul_left}
use gramoz.Common.{
  ℕ, ◌+◌, ◌-◌, ◌*◌, ◌/◌, ◌≤◌, ◌<◌, ◌≡◌, true, false, some, arith, leb, String, min, Option-cases,
  Bool-cases, inl, inr,
}
use gramoz.Table.{find}
use gramoz.Schema.{Db}
use gramoz.Schema.Enums.{DiscountType, percentage}
use gramoz.Schema.Rows.{Promo}
use gramoz.Tx.{ok}
use gramoz.Promos.{
  validate, raw_discount, PromoResult, has_code, expired_at, exhausted, below_minimum,
}
use gramoz.Orders.Checkout.Pricing.{Totals, redeem}

-- Two parts of a multiple of `r`, each rounded to the nearest, add up to the whole or to one more.
rounded_parts :
    (a b n r : ℕ)
    → 0 < r
    → a + b ≡ n * r
    → (n ≤ (2 * a + r) / (2 * r) + (2 * b + r) / (2 * r))
      × ((2 * a + r) / (2 * r) + (2 * b + r) / (2 * r) ≤ n + 1)
rounded_parts a b n r p e =
    let q1 : ℕ = (2 * a + r) / (2 * r) in
    let q2 : ℕ = (2 * b + r) / (2 * r) in
    let lo1 = mul-div-le (2 * a + r) (2 * r) in
    let lo2 = mul-div-le (2 * b + r) (2 * r) in
    let hi1 = lt-mul-div-succ (2 * a + r) {b = 2 * r} (omega arith) in
    let hi2 = lt-mul-div-succ (2 * b + r) {b = 2 * r} (omega arith) in
    (
      omega (arith, lt_of_mul-lt-mul_left r {m = n + 1} {n = q1 + q2 + 2} (omega arith)),
      omega (arith, lt_of_mul-lt-mul_left r {m = q1 + q2} {n = n + 2} (omega arith)),
    )

rounded_le : (a n r : ℕ) → 0 < r → a ≤ n * r → (2 * a + r) / (2 * r) ≤ n
rounded_le a n r p h =
    let lo = mul-div-le (2 * a + r) (2 * r) in
    omega (arith, lt_of_mul-lt-mul_left r {m = (2 * a + r) / (2 * r)} {n = n + 1} (omega arith))

-- Points: with a ratio that is not 0, the points used are within the balance, the total does not
-- grow, and what the total loses the discount gains, up to the rounding of one cent.
pub redeem_conserves :
    (ratio balance : ℕ) (t : Totals)
    → 0 < ratio
    → let s : Totals = redeem ratio balance t in
      (s.points_spent ≤ balance)
      × (s.total ≤ t.total)
      × (t.total + t.discount ≤ s.total + s.discount)
      × (s.total + s.discount ≤ t.total + t.discount + 1)
unfolding redeem
redeem_conserves ratio balance t p = elim (Bool-cases (leb (t.total * ratio) (100 * balance))) [
  | inl all ↦ ground (arith, all)
  | inr some_of_it ↦
      let rest : ℕ = t.total * ratio - 100 * balance in
      let parts = rounded_parts rest (100 * balance) t.total ratio p (ground arith) in
      let less = rounded_le rest t.total ratio p (omega arith) in
      ground (arith, parts, less, some_of_it)
]

pub percentage_rounds :
    (p : Promo) (subtotal : ℕ)
    → p.discount_type ≡ percentage
    → (2 * (subtotal * p.discount_value) ≤ 20_000 * raw_discount p subtotal + 10_000)
      × (20_000 * raw_discount p subtotal ≤ 2 * (subtotal * p.discount_value) + 10_000)
unfolding raw_discount
percentage_rounds p subtotal e = ground arith

-- An announcement that is kept; no limit is a limit of none or of 0.
pub record Accepted (now subtotal : ℕ) (p : Promo) (r : PromoResult) : Type 0 where
  pub active : p.is_active ≡ true
  pub in_time : (t : ℕ) → p.expires_at ≡ some t → now ≤ t
  pub unused : (m : ℕ) → p.max_uses ≡ some m → 0 < m → p.current_uses < m
  pub minimum : (m : ℕ) → p.min_order_value ≡ some m → m ≤ subtotal
  pub promo : r.promo_id ≡ p.id
  pub capped : r.discount_amount ≤ subtotal
  pub exact :
      p.discount_type ≡ DiscountType.fixed
      → p.discount_value ≤ subtotal
      → r.discount_amount ≡ p.discount_value
  pub percent :
      p.discount_type ≡ percentage
      → p.discount_value ≤ 10_000
      → (2 * (subtotal * p.discount_value) ≤ 20_000 * r.discount_amount + 10_000)
        × (20_000 * r.discount_amount ≤ 2 * (subtotal * p.discount_value) + 10_000)

-- The conditions that `validate` tests, in numbers.
in_time_of :
    (now : ℕ) (p : Promo) → expired_at now p ≡ false → (t : ℕ) → p.expires_at ≡ some t → now ≤ t
in_time_of now p h t e = ground (arith, h, e)

unused_of :
    (p : Promo) → exhausted p ≡ false → (m : ℕ) → p.max_uses ≡ some m → 0 < m → p.current_uses < m
unused_of p h m e pos = ground (arith, h, e, pos)

minimum_of :
    (subtotal : ℕ) (p : Promo)
    → below_minimum subtotal p ≡ false
    → (m : ℕ) → p.min_order_value ≡ some m
    → m ≤ subtotal
minimum_of subtotal p h m e = ground (arith, h, e)

raw_fixed :
    (p : Promo) (n : ℕ) → p.discount_type ≡ DiscountType.fixed → raw_discount p n ≡ p.discount_value
unfolding raw_discount
raw_fixed p n e = ground (arith, e)

raw_within :
    (p : Promo) (n : ℕ)
    → p.discount_type ≡ percentage
    → p.discount_value ≤ 10_000
    → raw_discount p n ≤ n
unfolding raw_discount
raw_within p n e h =
    let all : n * p.discount_value ≤ n * 10_000 = mul-le-mul_left n h in
    let least = rounded_le (n * p.discount_value) n 10_000 (omega arith) all in
    ground (arith, e, least)

accepted :
    (up : String → String) (now : ℕ) (code : String) (subtotal : ℕ) (db after : Db)
    (r : PromoResult) (p : Promo)
    → find (has_code (up code)) db.promos ≡ some p
    → validate up now code subtotal db ≡ ok (r, after)
    → Accepted now subtotal p r
unfolding validate
accepted up now code subtotal db after r p f h =
    let discount : r.discount_amount ≡ min (raw_discount p subtotal) subtotal =
      ground (arith, f, h) in
    record {
      active = ground (arith, f, h);
      in_time = in_time_of now p (ground (arith, f, h));
      unused = unused_of p (ground (arith, f, h));
      minimum = minimum_of subtotal p (ground (arith, f, h));
      promo = ground (arith, f, h);
      capped = ground (arith, discount);
      exact = λ e fits. ground (arith, discount, raw_fixed p subtotal e, fits);
      percent = λ e fits.
          ground (arith, discount, raw_within p subtotal e fits, percentage_rounds p subtotal e);
    }

-- A promotion is accepted only as it is announced: the code names a promotion that is active, whose
-- expiry, if it has one, is not before now, whose uses are below its limit, if it has one that is
-- not 0, and whose minimum, if it has one, the subtotal reaches; the discount is at most the
-- subtotal, it is a fixed value that fits, and the exact percentage up to 100 up to half a cent; and
-- nothing is written.
pub validate_accepts :
    (up : String → String) (now : ℕ) (code : String) (subtotal : ℕ) (db after : Db)
    (r : PromoResult)
    → validate up now code subtotal db ≡ ok (r, after)
    → (p : Promo) × (find (has_code (up code)) db.promos ≡ some p)
      × Accepted now subtotal p r
      × (after ≡ db)
unfolding validate
validate_accepts up now code subtotal db after r h =
    elim (Option-cases (find (has_code (up code)) db.promos)) [
      | inl n ↦ ground (arith, n, h)
      | inr (p, f) ↦ (p, f, accepted up now code subtotal db after r p f h, ground (arith, f, h))
    ]
