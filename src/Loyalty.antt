-- ===== src/Loyalty.antt =====
-- The loyalty ledger: server/src/modules/loyalty/loyalty.service.ts and loyalty.store.ts. A balance
-- is not stored; it is computed from the rows of `loyalty_points`, spent points being negative.
pub mod Ledger
pub mod Once
use gramoz.Common.{
  ℕ, ◌+◌, ◌*◌, min, Bool, true, false, not, ◌&&◌, ◌||◌, Option, none, some, ◌∷◌, ltb, ◌==◌,
  if◌then◌else◌,
}
use gramoz.Common.Int.{ℤ, pos, pos_part, neg, is_positive}
use gramoz.Table.{select, exists, sum_by, sum_ℤ}
use gramoz.Schema.{Db}
use gramoz.Schema.Enums.{
  PointTransactionType, earned_review_text, earned_review_media, spent_checkout, admin_adjustment,
  point_type_eq,
}
use gramoz.Schema.Rows.{LoyaltyPoint}
use gramoz.Tx.{
  Tx, pure, read, write, ◌>>=◌, ◌>>◌, throw_if, bad_request, points_not_positive,
  insufficient_points,
}

abbrev pub refers_to : ℕ → LoyaltyPoint → Bool
refers_to id row = elim row.reference_id [ none ↦ false | some r ↦ r == id ]

abbrev is_review : PointTransactionType → Bool
is_review earned_review_text = true
is_review earned_review_media = true
is_review _ = false

-- The unique index on the review rewards: one row for each reference.
abbrev review_conflict : LoyaltyPoint → Db → Bool
review_conflict row db = elim row.reference_id [
  | none ↦ false
  | some r ↦ exists (λ p. is_review p.point_type && refers_to r p) db.loyalty
]

-- `createTransaction`; `none` is the insert that a conflict turns into nothing.
unfoldable pub create_transaction : LoyaltyPoint → Tx (Option LoyaltyPoint)
create_transaction row db =
    if is_review row.point_type && review_conflict row db
    then pure none db
    else (write (λ d. record d { loyalty = row ∷ d.loyalty }) >> pure (some row)) db

abbrev pub owned_by : ℕ → LoyaltyPoint → Bool
owned_by user row = row.user_id == user

-- The sum of all of a user's rows.
unfoldable pub net_balance : ℕ → Db → ℤ
net_balance user db = sum_ℤ (λ row. row.points) (select (owned_by user) db.loyalty)

abbrev pub is_valid_at : ℕ → LoyaltyPoint → Bool
is_valid_at now row = elim row.valid_until [ none ↦ true | some t ↦ ltb now t ]

-- The points earned and not expired.
unfoldable pub valid_earned : ℕ → ℕ → Db → ℕ
valid_earned user now db =
    sum_by (λ row. pos_part row.points)
      (select (λ row. owned_by user row && is_positive row.points && is_valid_at now row)
        db.loyalty)

unfoldable pub get_available_balance : ℕ → ℕ → Db → ℕ
get_available_balance user now db =
    if is_positive (net_balance user db)
    then min (valid_earned user now db) (pos_part (net_balance user db))
    else 0

unfoldable pub has_points_been_refunded : ℕ → Db → Bool
has_points_been_refunded ref db =
    exists
      (λ p. refers_to ref p && point_type_eq p.point_type admin_adjustment && is_positive p.points)
      db.loyalty

unfoldable pub has_points_been_awarded : ℕ → PointTransactionType → Db → Bool
has_points_been_awarded ref type db =
    exists
      (λ p.
        refers_to ref p
        && (if is_review type then is_review p.point_type else point_type_eq p.point_type type)
        && is_positive p.points)
      db.loyalty

abbrev day : ℕ
day = 86_400_000

abbrev awarded_already : Option ℕ → PointTransactionType → Db → Bool
awarded_already none type db = false
awarded_already (some r) type db = has_points_been_awarded r type db

abbrev pub earned_row : ℕ → ℕ → ℕ → ℤ → PointTransactionType → Option ℕ → LoyaltyPoint
earned_row now validity_days user points type ref = record {
  user_id = user;
  points = points;
  point_type = type;
  reference_id = ref;
  valid_until = if ltb 0 validity_days then some (now + validity_days * day) else none;
}

-- `awardPoints`, with the setting of `getPointsValidityDays`.
unfoldable pub award_points :
    ℕ → ℕ → ℕ → ℤ → PointTransactionType → Option ℕ → Tx (Option LoyaltyPoint)
unfolding create_transaction
award_points now validity_days user points type ref = do
  throw_if (not (is_positive points)) (bad_request points_not_positive)
  already ← read (awarded_already ref type)
  if already
      then pure none
      else create_transaction (earned_row now validity_days user points type ref)

abbrev pub spent_row : ℕ → ℕ → Option ℕ → LoyaltyPoint
spent_row user n ref = record {
  user_id = user;
  points = neg n;
  point_type = spent_checkout;
  reference_id = ref;
  valid_until = none;
}

-- `spendPoints`: the balance is read under the lock on the user's row.
unfoldable pub spend_points : ℕ → ℕ → ℕ → Option ℕ → Tx (Option LoyaltyPoint)
unfolding create_transaction
spend_points now user points_to_spend ref = do
  throw_if (points_to_spend == 0) (bad_request points_not_positive)
  balance ← read (get_available_balance user now)
  throw_if (ltb balance points_to_spend) (bad_request insufficient_points)
  create_transaction (spent_row user points_to_spend ref)

abbrev refunded_already : Option ℕ → Db → Bool
refunded_already none db = false
refunded_already (some r) db = has_points_been_refunded r db

abbrev pub refund_row : ℕ → ℕ → Option ℕ → LoyaltyPoint
refund_row user n ref = record {
  user_id = user;
  points = pos n;
  point_type = admin_adjustment;
  reference_id = ref;
  valid_until = none;
}

-- `refundPoints`: at most once for a reference.
unfoldable pub refund_points : ℕ → ℕ → Option ℕ → Tx (Option LoyaltyPoint)
unfolding create_transaction
refund_points user points_to_refund ref = do
  already ← read (refunded_already ref)
  if points_to_refund == 0 || already
      then pure none
      else create_transaction (refund_row user points_to_refund ref)
