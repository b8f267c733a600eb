-- ===== src/Tx/Calls.antt =====
-- What a service call that has ended went through.
use gramoz.Common.{Bool, true, false, ◌≡◌, refl, ap, ◌∙◌, sym, ◌⊎◌, inl, inr, arith}
use gramoz.Schema.{Db}
use gramoz.Tx.{Tx, Call, Result, ok, err, Error, ◌>>◌, ◌>>>◌, throw_if, run_transaction}

-- A transaction commits its result, or changes nothing.
pub run-inv :
    {A : Type 0} (m : Tx A) (db : Db) {r : Result A} {b : Db}
    → run_transaction m db ≡ (r, b)
    → ((a : A) × (r ≡ ok a) × (m db ≡ ok (a, b))) ⊎ ((b ≡ db) × ((e : Error) × (r ≡ err e)))
run-inv {A} m db {r} {b} h = go (m db) refl h
  where
    go :
        (s : Result (A × Db))
        → m db ≡ s
        → (let t : Result A × Db = elim s [ ok p ↦ (ok p.0, p.1) | err e ↦ (err e, db) ] in t)
          ≡ (r, b)
        → ((a : A) × (r ≡ ok a) × (m db ≡ ok (a, b))) ⊎ ((b ≡ db) × ((e : Error) × (r ≡ err e)))
    go (ok p) e k = inl (p.0, sym (ap (λ t. t.0) k), e ∙ ap (λ d. ok (p.0, d)) (ap (λ t. t.1) k))
    go (err x) e k = inr (sym (ap (λ t. t.1) k), (x, sym (ap (λ t. t.0) k)))

-- Either the first part ended the call, or the second followed it.
pub call-inv :
    {A B : Type 0} (m : Call A) (f : A → Call B) (db : Db) {r : Result B} {b : Db}
    → (m >>> f) db ≡ (r, b)
    → ((a : A) × (mid : Db) × (m db ≡ (ok a, mid)) × (f a mid ≡ (r, b)))
      ⊎ ((e : Error) × (m db ≡ (err e, b)) × (r ≡ err e))
call-inv {A} {B} m f db {r} {b} h = go (m db).0 refl h
  where
    go :
        (s : Result A)
        → (m db).0 ≡ s
        → (let t : Result B × Db = elim s [ ok a ↦ f a (m db).1 | err e ↦ (err e, (m db).1) ] in t)
          ≡ (r, b)
        → ((a : A) × (mid : Db) × (m db ≡ (ok a, mid)) × (f a mid ≡ (r, b)))
          ⊎ ((e : Error) × (m db ≡ (err e, b)) × (r ≡ err e))
    go (ok a) e k = inl (a, (m db).1, ap (λ t. (t, (m db).1)) e, k)
    go (err x) e k = inr (
      x,
      ap (λ t. (t, (m db).1)) e ∙ ap (λ d. (err x, d)) (ap (λ t. t.1) k),
      sym (ap (λ t. t.0) k),
    )

-- A transaction and what follows it: the transaction failed and changed nothing, or it succeeded.
pub tx-inv :
    {A B : Type 0} (m : Tx A) (f : A → Call B) (db : Db) {r : Result B} {b : Db}
    → (run_transaction m >>> f) db ≡ (r, b)
    → ((a : A) × (mid : Db) × (m db ≡ ok (a, mid)) × (f a mid ≡ (r, b))) ⊎ (b ≡ db)
tx-inv m f db {r} {b} h = elim (call-inv (run_transaction m) f db h) [
  | inr (e, g, _) ↦ elim (run-inv m db g) [ inl (a, i, _) ↦ cc | inr (same, _) ↦ inr same ]
  | inl (a, mid, g, k) ↦ elim (run-inv m db g) [
    | inl (c, i, j) ↦
        let own : a ≡ c = ground (arith, i) in inl (c, mid, j, ap (λ y. f y mid) (sym own) ∙ k)
    | inr (_, (e, i)) ↦ cc
  ]
]

pub throw_if-inv :
    {A : Type 0} (c : Bool) (e : Error) (m : Tx A) (db : Db) {r : A × Db}
    → (throw_if c e >> m) db ≡ ok r
    → (c ≡ false) × (m db ≡ ok r)
throw_if-inv true e m db h = cc
throw_if-inv false e m db h = (refl, h)
