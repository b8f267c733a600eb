-- ===== src/Examples/Ledgers.antt =====
-- The ledgers of points and promotions, and the amounts, in the example shop.
use gramoz.Common.{ℕ, ◌+◌, ◌≤◌, ◌<◌, ◌≡◌, refl, true, false, none, some, ◌==◌, arith}
use gramoz.Common.Int.{pos, neg_part, ◌+ℤ◌}
use gramoz.Table.{find}
use gramoz.Schema.{Db}
use gramoz.Schema.Enums.{earned_review_text, earned_review_media}
use gramoz.Schema.Rows.{Promo}
use gramoz.Tx.{ok}
use gramoz.Loyalty.{
  net_balance, valid_earned, get_available_balance, create_transaction, award_points, spend_points,
  refund_points, spent_row, refund_row, earned_row, has_points_been_refunded,
  has_points_been_awarded,
}
use gramoz.Loyalty.Ledger.{LedgerRun, spend_exactly, net_never_negative, spend, refund}
use gramoz.Loyalty.Once.{refund_once, award_once}
use gramoz.Promos.{increment_usage, validate, raw_discount, PromoResult, has_code}
use gramoz.Promos.Usage.{PromoRun, used, any_overused, uses_stay_within}
use gramoz.Orders.Checkout.Amounts.{redeem_conserves, validate_accepts, Accepted}
use gramoz.Orders.Checkout.Pricing.{Totals, redeem}
use gramoz.Examples.Shop.{shop, promo, db_of}

-- 50 of the 75 points are spent on order 900, then refunded.
abbrev spent : Db
spent = db_of (spend_points 1_000_000 1 50 (some 900) shop)

abbrev refunded : Db
refunded = db_of (refund_points 1 50 (some 900) spent)

abbrev rewarded : Db
rewarded = db_of (award_points 1_000_000 30 2 (pos 5) earned_review_text (some 88) shop)

spends : spend_points 1_000_000 1 50 (some 900) shop ≡ ok (some (spent_row 1 50 (some 900)), spent)
unfolding spend_points create_transaction get_available_balance net_balance valid_earned ◌+ℤ◌
spends = refl

refunds : refund_points 1 50 (some 900) spent ≡ ok (some (refund_row 1 50 (some 900)), refunded)
unfolding refund_points has_points_been_refunded spend_points create_transaction
    get_available_balance net_balance valid_earned ◌+ℤ◌
refunds = refl

rewards :
    award_points 1_000_000 30 2 (pos 5) earned_review_text (some 88) shop
    ≡ ok (some (earned_row 1_000_000 30 2 (pos 5) earned_review_text (some 88)), rewarded)
unfolding award_points has_points_been_awarded create_transaction
rewards = refl

history : LedgerRun shop refunded
history =
    LedgerRun.next (spend 1_000_000 1 50 (some 900) _ spends)
      (LedgerRun.next (refund 1 50 (some 900) _ refunds) LedgerRun.done)

spend_exactly_example :
    (0 < 50)
    × (50 ≤ get_available_balance 1 1_000_000 shop)
    × (pos 50 +ℤ net_balance 1 spent ≡ net_balance 1 shop)
    × ((other : ℕ) → (1 == other) ≡ false → net_balance other spent ≡ net_balance other shop)
spend_exactly_example = spend_exactly 1_000_000 1 50 (some 900) shop spends

net_never_negative_example : neg_part (net_balance 1 refunded) ≡ 0
unfolding net_balance ◌+ℤ◌
net_never_negative_example = net_never_negative 1 history refl

refund_once_example : refund_points 1 70 (some 900) refunded ≡ ok (none, refunded)
refund_once_example = refund_once 1 50 900 1 70 spent refunded refunded refunds LedgerRun.done

award_once_example :
    award_points 2_000_000 30 2 (pos 9) earned_review_media (some 88) rewarded ≡ ok (none, rewarded)
award_once_example =
    award_once 1_000_000 30 2 2_000_000 30 2 88 (pos 5) (pos 9) earned_review_text
      earned_review_media shop rewarded rewarded refl refl refl rewards LedgerRun.done

-- The third and last use of the promotion, after which it is refused.
abbrev used_up : Db
used_up = db_of (increment_usage 40 1_000_000 shop)

uses : increment_usage 40 1_000_000 shop ≡ ok (true, used_up)
unfolding increment_usage
uses = refl

uses_no_more : increment_usage 40 1_000_000 used_up ≡ ok (false, used_up)
unfolding increment_usage
uses_no_more = refl

uses_stay_within_example : any_overused used_up ≡ false
uses_stay_within_example =
    uses_stay_within shop used_up
      (PromoRun.next (used 40 1_000_000 true uses)
        (PromoRun.next (used 40 1_000_000 false uses_no_more) PromoRun.done))
      refl

-- 75 points at 7 to the unit are 10.71 off.
abbrev cart_totals : Totals
cart_totals = record { total = 125_999; discount = 14_001; promo = some 40; points_spent = 0 }

redeem_conserves_example :
    let s : Totals = redeem 7 75 cart_totals in
    (s.points_spent ≤ 75)
    × (s.total ≤ 125_999)
    × (125_999 + 14_001 ≤ s.total + s.discount)
    × (s.total + s.discount ≤ 125_999 + 14_001 + 1)
redeem_conserves_example = redeem_conserves 7 75 cart_totals (omega arith)

abbrev ten_percent : PromoResult
ten_percent = record { promo_id = 40; discount_amount = 14_001 }

validates : validate (λ s. s) 1_000_000 "TEN" 140_005 shop ≡ ok (ten_percent, shop)
unfolding validate raw_discount
validates = refl

validate_accepts_example :
    (p : Promo) × (find (has_code "TEN") shop.promos ≡ some p)
    × Accepted 1_000_000 140_005 p ten_percent
    × (shop ≡ shop)
validate_accepts_example =
    validate_accepts (λ s. s) 1_000_000 "TEN" 140_005 shop shop ten_percent validates
