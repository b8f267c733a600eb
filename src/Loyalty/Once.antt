-- ===== src/Loyalty/Once.antt =====
-- Repeated rewards and refunds (server/src/modules/loyalty/loyalty.service.ts).
use gramoz.Common.{ℕ, ◌≡◌, ap, ◌∙◌, Bool, true, false, none, some, arith, if◌then◌else◌, is_some}
use gramoz.Common.Int.{ℤ, is_positive}
use gramoz.Table.{exists}
use gramoz.Schema.{Db}
use gramoz.Schema.Enums.{PointTransactionType}
use gramoz.Schema.Rows.{LoyaltyPoint}
use gramoz.Tx.{ok}
use gramoz.Loyalty.{
  award_points, refund_points, spent_row, refund_row, earned_row, has_points_been_refunded,
  has_points_been_awarded, is_review, create_transaction,
}
use gramoz.Loyalty.Ledger.{
  posted, spend_points_lem, award_points_lem, refund_points_lem, LedgerStep, award, spend, refund,
  LedgerRun, done, next,
}

-- A row that a query finds is still found after any operation.
grows :
    (p : LoyaltyPoint → Bool) (row : LoyaltyPoint) (b : Bool) (db : Db)
    → exists p db.loyalty ≡ true
    → exists p (if b then posted row db else db).loyalty ≡ true
unfolding posted
grows p row true db h = ground arith
grows p row false db h = h

kept_by_step :
    (p : LoyaltyPoint → Bool) {a b : Db}
    → LedgerStep a b
    → exists p a.loyalty ≡ true
    → exists p b.loyalty ≡ true
kept_by_step p {a} {b} (award now days user points t ref x e) h =
    ap (λ d. exists p d.loyalty) (award_points_lem now days user points t ref a e).1
    ∙ grows p (earned_row now days user points t ref) (is_some x) a h
kept_by_step p {a} {b} (spend now user n ref x e) h =
    ap (λ d. exists p d.loyalty) (spend_points_lem now user n ref a e).2
    ∙ grows p (spent_row user n ref) true a h
kept_by_step p {a} {b} (refund user n ref x e) h =
    ap (λ d. exists p d.loyalty) (refund_points_lem user n ref a e)
    ∙ grows p (refund_row user n ref) (is_some x) a h

kept :
    (p : LoyaltyPoint → Bool) {a b : Db}
    → LedgerRun a b
    → exists p a.loyalty ≡ true
    → exists p b.loyalty ≡ true
kept p done h = h
kept p (next s r) h = kept p r (kept_by_step p s h)

refund_is_seen :
    (user n r : ℕ) (a b : Db) {row : LoyaltyPoint}
    → refund_points user n (some r) a ≡ ok (some row, b)
    → has_points_been_refunded r b ≡ true
unfolding refund_points create_transaction has_points_been_refunded
refund_is_seen user n r a b h = ground arith

refund_is_skipped :
    (user n r : ℕ) (c : Db)
    → has_points_been_refunded r c ≡ true
    → refund_points user n (some r) c ≡ ok (none, c)
unfolding refund_points
refund_is_skipped user n r c h = ground arith

-- One refund: once points are refunded for a reference, no refund for it, whenever, to whomever and
-- of whatever amount, writes anything again, whatever the ledger's operations did in between.
pub refund_once :
    (user n r later m : ℕ) (a b c : Db) {row : LoyaltyPoint}
    → refund_points user n (some r) a ≡ ok (some row, b)
    → LedgerRun b c
    → refund_points later m (some r) c ≡ ok (none, c)
unfolding has_points_been_refunded
refund_once user n r later m a b c h run =
    refund_is_skipped later m r c (kept _ run (refund_is_seen user n r a b h))

award_is_seen :
    (now days user : ℕ) (points : ℤ) (t s : PointTransactionType) (r : ℕ) (a b : Db)
    {row : LoyaltyPoint}
    → is_review t ≡ true
    → is_review s ≡ true
    → award_points now days user points t (some r) a ≡ ok (some row, b)
    → has_points_been_awarded r s b ≡ true
unfolding award_points create_transaction has_points_been_awarded
award_is_seen now days user points t s r a b k l h = ground arith

award_is_skipped :
    (now days user : ℕ) (points : ℤ) (t : PointTransactionType) (r : ℕ) (c : Db)
    → is_positive points ≡ true
    → has_points_been_awarded r t c ≡ true
    → award_points now days user points t (some r) c ≡ ok (none, c)
unfolding award_points
award_is_skipped now days user points t r c p h = ground arith

-- One reward for a review: once points of either review type are awarded for a reference, an award
-- of either type for it writes nothing, whatever the ledger's operations did in between.
pub award_once :
    (now days user later days' user' r : ℕ) (points points' : ℤ) (t s : PointTransactionType)
    (a b c : Db) {row : LoyaltyPoint}
    → is_review t ≡ true
    → is_review s ≡ true
    → is_positive points' ≡ true
    → award_points now days user points t (some r) a ≡ ok (some row, b)
    → LedgerRun b c
    → award_points later days' user' points' s (some r) c ≡ ok (none, c)
unfolding has_points_been_awarded
award_once now days user later days' user' r points points' t s a b c k l p h run =
    award_is_skipped later days' user' points' s r c p
      (kept _ run (award_is_seen now days user points t s r a b k l h))
