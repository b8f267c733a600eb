-- ===== src/Tx/Post.antt =====
-- Postconditions of transactions: what holds of the result and of the database if the transaction
-- succeeds, with one rule for each way of building a transaction.
use gramoz.Common.{Bool, true, false, Option, none, some, ◌≡◌, refl, ap, arith}
use gramoz.Schema.{Db}
use gramoz.Tx.{Tx, Result, ok, err, Error, ◌>>=◌, throw_if, or_throw, when, run_transaction}

abbrev pub Post : {A : Type 0} → (A → Db → Type 0) → Result (A × Db) → Type 0
Post Q (ok r) = Q r.0 r.1
Post Q (err e) = Unit {0}

pub Post-bind :
    {A B : Type 0} (R : A → Db → Type 0) (Q : B → Db → Type 0) (m : Tx A) (f : A → Tx B) (db : Db)
    → Post R (m db)
    → ((a : A) (mid : Db) → R a mid → Post Q (f a mid))
    → Post Q ((m >>= f) db)
Post-bind {A} {B} R Q m f db h k = go (m db) h
  where
    go : (s : Result (A × Db)) → Post R s → Post Q (elim s [ ok p ↦ f p.0 p.1 | err e ↦ err e ])
    go (ok p) e = k p.0 p.1 e
    go (err x) e = tt

pub Post-weaken :
    {A : Type 0} (R Q : A → Db → Type 0) (s : Result (A × Db))
    → Post R s
    → ((a : A) (db : Db) → R a db → Q a db)
    → Post Q s
Post-weaken R Q (ok r) h k = k r.0 r.1 h
Post-weaken R Q (err e) h k = tt

pub Post-throw_if :
    (Q : Unit {0} → Db → Type 0) (c : Bool) (e : Error) (db : Db)
    → (c ≡ false → Q tt db)
    → Post Q (throw_if c e db)
Post-throw_if Q true e db h = tt
Post-throw_if Q false e db h = h refl

pub Post-or_throw :
    {A : Type 0} (Q : A → Db → Type 0) (o : Option A) (e : Error) (db : Db)
    → ((a : A) → o ≡ some a → Q a db)
    → Post Q (or_throw o e db)
Post-or_throw Q none e db h = tt
Post-or_throw Q (some a) e db h = h a refl

pub Post-when :
    (Q : Unit {0} → Db → Type 0) (c : Bool) (m : Tx (Unit {0})) (db : Db)
    → Q tt db
    → Post Q (m db)
    → Post Q (when c m db)
Post-when Q true m db h k = k
Post-when Q false m db h k = h

-- From a postcondition to what a successful run gives.
pub Post-apply :
    {A : Type 0} (Q : A → Db → Type 0) {s : Result (A × Db)} {r : A × Db}
    → Post Q s
    → s ≡ ok r
    → Q r.0 r.1
Post-apply Q {s} {r} h e = rw e at h

-- A transaction that succeeds commits its result.
pub run_transaction-eq-ok :
    {A : Type 0} (m : Tx A) (db : Db) {a : A} {after : Db}
    → run_transaction m db ≡ (ok a, after)
    → m db ≡ ok (a, after)
run_transaction-eq-ok {A} m db {a} {after} h = go (m db) h
  where
    go :
        (s : Result (A × Db))
        → (let t : Result A × Db = elim s [ ok r ↦ (ok r.0, r.1) | err e ↦ (err e, db) ] in t)
          ≡ (ok a, after)
        → s ≡ ok (a, after)
    go (ok r) e = ground arith
    go (err x) e = cc

-- A step that succeeds hands over its result and its database.
pub bind-ok :
    {A B : Type 0} (m : Tx A) (f : A → Tx B) {db mid : Db} {a : A}
    → m db ≡ ok (a, mid)
    → (m >>= f) db ≡ f a mid
bind-ok {A} {B} m f {db} {mid} {a} e =
    ap {A = Result (A × Db)} {B = Result (B × Db)}
      (λ s. elim s [ ok r ↦ f r.0 r.1 | err x ↦ err x ]) e

-- A step that fails is the end.
pub bind-err :
    {A B : Type 0} (m : Tx A) (f : A → Tx B) {db : Db} {x : Error}
    → m db ≡ err x
    → (m >>= f) db ≡ err x
bind-err {A} {B} m f {db} {x} e =
    ap {A = Result (A × Db)} {B = Result (B × Db)}
      (λ s. elim s [ ok r ↦ f r.0 r.1 | err y ↦ err y ]) e

-- If a sequence succeeds then its first step did.
pub bind-inv :
    {A B : Type 0} (m : Tx A) (f : A → Tx B) (db : Db) {r : B × Db}
    → (m >>= f) db ≡ ok r
    → (a : A) × (mid : Db) × (m db ≡ ok (a, mid)) × (f a mid ≡ ok r)
bind-inv {A} {B} m f db {r} h = go (m db) refl h
  where
    go :
        (s : Result (A × Db))
        → m db ≡ s
        → (let t : Result (B × Db) = elim s [ ok p ↦ f p.0 p.1 | err x ↦ err x ] in t) ≡ ok r
        → (a : A) × (mid : Db) × (m db ≡ ok (a, mid)) × (f a mid ≡ ok r)
    go (ok p) e k = (p.0, p.1, e, k)
    go (err x) e k = cc

pub or_throw-inv :
    {A : Type 0} (o : Option A) (e : Error) (db : Db) {a : A} {mid : Db}
    → or_throw o e db ≡ ok (a, mid)
    → (o ≡ some a) × (db ≡ mid)
or_throw-inv o e db h = ground arith
