-- ===== src/Orders/Checkout/Pricing.antt =====
-- Step 6 of `createOrderFromCart` (server/src/modules/orders/orders.service.ts): the promotion, the
-- points and the delivery charge (`calculateCharge` of server/src/modules/courier/courier.service.ts).
-- Amounts are exact numbers of cents where the source divides by 100 in floating point.
use gramoz.Common.{
  ℕ, ◌+◌, ◌-◌, ◌*◌, ◌/◌, String, Bool, true, false, Option, none, some, ltb, leb, ◌==◌,
  if◌then◌else◌,
}
use gramoz.Table.{find}
use gramoz.Schema.{Db}
use gramoz.Schema.Enums.{DeliveryMethod, home, branch}
use gramoz.Schema.Rows.{Zone}
use gramoz.Tx.{Tx, Result, ok, err, pure, read, ◌>>=◌, other_error, zone_not_found}
use gramoz.Promos.{validate}
use gramoz.Loyalty.{get_available_balance}

pub record Totals : Type 0 where
  pub total : ℕ
  pub discount : ℕ
  pub promo : Option ℕ
  pub points_spent : ℕ

unfoldable pub apply_promo : (String → String) → ℕ → Option String → ℕ → Tx Totals
apply_promo to_upper now none subtotal =
    pure (record { total = subtotal; discount = 0; promo = none; points_spent = 0 })
apply_promo to_upper now (some code) subtotal = do
  r ← validate to_upper now code subtotal
  pure (record {
    total = subtotal - r.discount_amount;
    discount = r.discount_amount;
    promo = some r.promo_id;
    points_spent = 0;
  })

-- `balance / ratio` of the currency is `100 * balance / ratio` cents. A ratio of 0 makes the value
-- of the points infinite or undefined, and then none are used.
unfoldable pub redeem : (ratio balance : ℕ) → Totals → Totals
redeem ratio balance t =
    if ratio == 0
    then t
    else if leb (t.total * ratio) (100 * balance)
    then record t {
      total = 0;
      discount = t.discount + t.total;
      points_spent = (t.total * ratio + 99) / 100;
    }
    else record t {
      total = (2 * (t.total * ratio - 100 * balance) + ratio) / (2 * ratio);
      discount = t.discount + (200 * balance + ratio) / (2 * ratio);
      points_spent = balance;
    }

unfoldable pub apply_points : (now ratio user : ℕ) → Bool → Totals → Tx Totals
unfolding redeem
apply_points now ratio user false t = pure t
apply_points now ratio user true t = do
  balance ← read (get_available_balance user now)
  pure (redeem ratio balance t)

-- `calculateCharge`, of a weight of `halves` half kilograms
unfoldable pub charge_of : Zone → DeliveryMethod → (halves : ℕ) → ℕ
charge_of zone method halves =
    let base : ℕ = elim method [
      | home ↦ zone.home_delivery_charge
      | branch ↦ zone.branch_pickup_charge
    ] in
    if ltb 2 halves then base + (halves - 2 + 1) / 2 * 1500 else base

unfoldable pub calculate_charge : ℕ → DeliveryMethod → ℕ → Db → Result ℕ
unfolding charge_of
calculate_charge zone_id method halves db = elim (find (λ z. z.id == zone_id) db.zones) [
  | none ↦ err (other_error zone_not_found)
  | some zone ↦ ok (charge_of zone method halves)
]
