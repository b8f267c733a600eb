-- ===== src/Loyalty/Ledger.antt =====
-- The ledger of loyalty points over many operations
-- (server/src/modules/loyalty/loyalty.service.ts).
use gramoz.Common.{
  ℕ, ◌≤◌, ◌<◌, ◌≡◌, refl, ap, ◌∙◌, Bool, true, false, Option, ◌∷◌, arith, ◌==◌, if◌then◌else◌,
  is_some, Bool-cases, inl, inr,
}
use gramoz.Common.Int.{ℤ, pos, neg, neg_part, pos_part, ◌+ℤ◌, is_positive}
use gramoz.Schema.{Db}
use gramoz.Schema.Enums.{PointTransactionType}
use gramoz.Schema.Rows.{LoyaltyPoint}
use gramoz.Tx.{ok}
use gramoz.Loyalty.{
  net_balance, owned_by, get_available_balance, create_transaction, award_points, spend_points,
  refund_points, spent_row, refund_row, earned_row,
}

-- The database with one more row in the ledger.
unfoldable pub posted : LoyaltyPoint → Db → Db
posted row db = record db { loyalty = row ∷ db.loyalty }

pub net_balance-posted :
    (user : ℕ) (row : LoyaltyPoint) (db : Db)
    → net_balance user (posted row db)
      ≡ (if owned_by user row then row.points +ℤ net_balance user db else net_balance user db)
unfolding net_balance posted
net_balance-posted user row db = ground arith

available_le_net :
    (user now : ℕ) (db : Db) → get_available_balance user now db ≤ pos_part (net_balance user db)
unfolding get_available_balance
available_le_net user now db = ground arith

-- What a spending writes, and when.
pub spend_points_lem :
    (now user n : ℕ) (ref : Option ℕ) (db : Db) {x : Option LoyaltyPoint} {after : Db}
    → spend_points now user n ref db ≡ ok (x, after)
    → (0 < n) × (n ≤ get_available_balance user now db) × (after ≡ posted (spent_row user n ref) db)
unfolding spend_points create_transaction posted
spend_points_lem now user n ref db h = ground arith

pub net_balance-mine :
    (user : ℕ) (row : LoyaltyPoint) (db : Db)
    → owned_by user row ≡ true
    → net_balance user (posted row db) ≡ row.points +ℤ net_balance user db
net_balance-mine user row db h = ground (arith, net_balance-posted user row db, h)

pub net_balance-other :
    (user : ℕ) (row : LoyaltyPoint) (db : Db)
    → owned_by user row ≡ false
    → net_balance user (posted row db) ≡ net_balance user db
net_balance-other user row db h = ground (arith, net_balance-posted user row db, h)

add-neg : (n : ℕ) (z : ℤ) → pos n +ℤ (neg n +ℤ z) ≡ z
unfolding ◌+ℤ◌
add-neg n z = ground arith

spend-nonneg :
    (n m : ℕ) (z : ℤ) → n ≤ m → m ≤ pos_part z → neg_part z ≡ 0 → neg_part (neg n +ℤ z) ≡ 0
unfolding ◌+ℤ◌
spend-nonneg n m z h k e = ground arith

add-nonneg : (a b : ℤ) → neg_part a ≡ 0 → neg_part b ≡ 0 → neg_part (a +ℤ b) ≡ 0
unfolding ◌+ℤ◌
add-nonneg a b h k = ground arith

-- No overdraft: a spending that succeeds is positive and within the available balance, and takes its
-- points off the user's net balance, exactly, and off nobody else's.
pub spend_exactly :
    (now user n : ℕ) (ref : Option ℕ) (db : Db) {x : Option LoyaltyPoint} {after : Db}
    → spend_points now user n ref db ≡ ok (x, after)
    → (0 < n)
      × (n ≤ get_available_balance user now db)
      × (pos n +ℤ net_balance user after ≡ net_balance user db)
      × ((other : ℕ) → (user == other) ≡ false → net_balance other after ≡ net_balance other db)
spend_exactly now user n ref db {x} {after} h =
    let (p, le, e) = spend_points_lem now user n ref db h in
    (
      p,
      le,
      ap (λ d. pos n +ℤ net_balance user d) e
          ∙ ap (λ z. pos n +ℤ z) (net_balance-mine user (spent_row user n ref) db (ground arith))
          ∙ add-neg n (net_balance user db),
      λ other d. ap (net_balance other) e ∙ net_balance-other other (spent_row user n ref) db d,
    )

-- What the three operations write: nothing, or one row.
pub award_points_lem :
    (now days user : ℕ) (points : ℤ) (t : PointTransactionType) (ref : Option ℕ) (db : Db)
    {x : Option LoyaltyPoint} {after : Db}
    → award_points now days user points t ref db ≡ ok (x, after)
    → (is_positive points ≡ true)
      × (after ≡ (if is_some x then posted (earned_row now days user points t ref) db else db))
unfolding award_points create_transaction posted
award_points_lem now days user points t ref db h = ground arith

pub refund_points_lem :
    (user n : ℕ) (ref : Option ℕ) (db : Db) {x : Option LoyaltyPoint} {after : Db}
    → refund_points user n ref db ≡ ok (x, after)
    → after ≡ (if is_some x then posted (refund_row user n ref) db else db)
unfolding refund_points create_transaction posted
refund_points_lem user n ref db h = ground arith

-- One operation on the ledger that succeeds.
pub data LedgerStep (a b : Db) : Type 0 where
  award :
      (now days user : ℕ) (points : ℤ) (t : PointTransactionType) (ref : Option ℕ)
      (x : Option LoyaltyPoint)
      → award_points now days user points t ref a ≡ ok (x, b)
      → LedgerStep a b
  spend :
      (now user n : ℕ) (ref : Option ℕ) (x : Option LoyaltyPoint)
      → spend_points now user n ref a ≡ ok (x, b)
      → LedgerStep a b
  refund :
      (user n : ℕ) (ref : Option ℕ) (x : Option LoyaltyPoint)
      → refund_points user n ref a ≡ ok (x, b)
      → LedgerStep a b

pub data LedgerRun : Db → Db → Type 0 where
  done : {a : Db} → LedgerRun a a
  next : {a b c : Db} → LedgerStep a b → LedgerRun b c → LedgerRun a c

nonneg_posted :
    (u : ℕ) (row : LoyaltyPoint) (db : Db)
    → neg_part row.points ≡ 0
    → neg_part (net_balance u db) ≡ 0
    → neg_part (net_balance u (posted row db)) ≡ 0
nonneg_posted u row db p h = elim (Bool-cases (owned_by u row)) [
  | inl m ↦ ap neg_part (net_balance-mine u row db m) ∙ add-nonneg row.points (net_balance u db) p h
  | inr m ↦ ap neg_part (net_balance-other u row db m) ∙ h
]

nonneg_spent :
    (now u user n : ℕ) (ref : Option ℕ) (db : Db)
    → n ≤ get_available_balance user now db
    → neg_part (net_balance u db) ≡ 0
    → neg_part (net_balance u (posted (spent_row user n ref) db)) ≡ 0
nonneg_spent now u user n ref db le h = elim (Bool-cases (owned_by u (spent_row user n ref))) [
  | inl m ↦
      ap neg_part (net_balance-mine u (spent_row user n ref) db m)
      ∙ spend-nonneg n (get_available_balance u now db) (net_balance u db) (ground (arith, m))
          (available_le_net u now db) h
  | inr m ↦ ap neg_part (net_balance-other u (spent_row user n ref) db m) ∙ h
]

nonneg_added :
    (u : ℕ) (row : LoyaltyPoint) (b : Bool) (db : Db)
    → neg_part row.points ≡ 0
    → neg_part (net_balance u db) ≡ 0
    → neg_part (net_balance u (if b then posted row db else db)) ≡ 0
nonneg_added u row true db p h = nonneg_posted u row db p h
nonneg_added u row false db p h = h

step-nonneg :
    (u : ℕ) {a b : Db}
    → LedgerStep a b
    → neg_part (net_balance u a) ≡ 0
    → neg_part (net_balance u b) ≡ 0
step-nonneg u {a} {b} (award now days user points t ref x e) h =
    let (p, w) = award_points_lem now days user points t ref a e in
    ap (λ d. neg_part (net_balance u d)) w
    ∙ nonneg_added u (earned_row now days user points t ref) (is_some x) a (ground arith) h
step-nonneg u {a} {b} (spend now user n ref x e) h =
    let (_, le, w) = spend_points_lem now user n ref a e in
    ap (λ d. neg_part (net_balance u d)) w ∙ nonneg_spent now u user n ref a le h
step-nonneg u {a} {b} (refund user n ref x e) h =
    ap (λ d. neg_part (net_balance u d)) (refund_points_lem user n ref a e)
    ∙ nonneg_added u (refund_row user n ref) (is_some x) a refl h

-- No balance falls below zero: over any run of awards, spendings and refunds by anybody, a user's
-- net balance that is not negative stays so.
pub net_never_negative :
    (u : ℕ) {a b : Db}
    → LedgerRun a b
    → neg_part (net_balance u a) ≡ 0
    → neg_part (net_balance u b) ≡ 0
net_never_negative u done h = h
net_never_negative u (next s r) h = net_never_negative u r (step-nonneg u s h)
