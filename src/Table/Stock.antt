-- ===== src/Table/Stock.antt =====
-- Tables of rows with a key and a stock. Products and variants are two such tables, and the laws of
-- taking from a stock and giving back to it are the same for both.
use gramoz.Common.{
  ℕ, ◌+◌, ◌-◌, ◌≡◌, refl, Bool, true, false, ◌&&◌, inl, inr, List, [], ◌∷◌, arith, leb, ◌==◌,
  if◌then◌else◌, Bool-cases, ==_iff, subst,
}
use gramoz.Table.{update, exists}

pub record StockTable (A : Type 0) : Type 0 where
  pub key : A → ℕ
  pub stock : A → ℕ
  pub put : ℕ → A → A
  pub key-put : (n : ℕ) (a : A) → key (put n a) ≡ key a
  pub stock-put : (n : ℕ) (a : A) → stock (put n a) ≡ n
  pub put-put : (m n : ℕ) (a : A) → put m (put n a) ≡ put m a
  pub put-stock : (a : A) → put (stock a) a ≡ a

module _ {A : Type 0} (t : StockTable A) where
  open t use {key, stock, put, key-put, stock-put, put-put, put-stock}

  -- Every row gets what `f` says for its key.
  pub bump : (ℕ → ℕ) → List A → List A
  bump f [] = []
  bump f (x ∷ xs) = put (stock x + f (key x)) x ∷ bump f xs

  abbrev pub at : ℕ → ℕ → ℕ → ℕ
  at id n k = if k == id then n else 0

  abbrev pub has_key : ℕ → A → Bool
  has_key id a = key a == id

  abbrev pub covers : ℕ → ℕ → A → Bool
  covers id n a = has_key id a && leb n (stock a)

  -- No two rows share a key: the primary key of the table.
  abbrev pub KeysAreUnique : List A → Type 0
  KeysAreUnique [] = Unit {0}
  KeysAreUnique (x ∷ xs) = (exists (has_key (key x)) xs ≡ false) × KeysAreUnique xs

  pub bump-zero : (xs : List A) → bump (λ _. 0) xs ≡ xs
  unfolding bump
  bump-zero [] = refl
  bump-zero (x ∷ xs) = ground (arith, put-stock x, bump-zero xs)

  pub bump-add : (f g : ℕ → ℕ) (xs : List A) → bump (λ k. f k + g k) xs ≡ bump f (bump g xs)
  unfolding bump
  bump-add f g [] = refl
  bump-add f g (x ∷ xs) = ground (
    arith,
    put-put (stock (put (stock x + g (key x)) x) + f (key (put (stock x + g (key x)) x)))
        (stock x + g (key x)) x,
    stock-put (stock x + g (key x)) x,
    key-put (stock x + g (key x)) x,
    bump-add f g xs,
  )

  -- An update of one key is a bump.
  pub update-bump :
      (id n : ℕ) (xs : List A)
      → update (has_key id) (λ a. put (stock a + n) a) xs ≡ bump (at id n) xs
  unfolding bump
  update-bump id n [] = refl
  update-bump id n (x ∷ xs) = ground (arith, put-stock x, update-bump id n xs)

  -- Without a row of the key nothing is taken, and nothing comes back.
  bump-elsewhere :
      (id n : ℕ) (xs : List A)
      → exists (has_key id) xs ≡ false
      → bump (at id n) (update (covers id n) (λ a. put (stock a - n) a) xs) ≡ xs
  unfolding bump
  bump-elsewhere id n [] e = refl
  bump-elsewhere id n (x ∷ xs) e = ground (arith, put-stock x, bump-elsewhere id n xs)

  covers-absent :
      (id n : ℕ) (xs : List A) → exists (has_key id) xs ≡ false → exists (covers id n) xs ≡ false
  covers-absent id n [] e = refl
  covers-absent id n (x ∷ xs) e = ground (arith, covers-absent id n xs)

  -- What was taken from a row that covers it can be given back.
  pub bump-deduct :
      (id n : ℕ) (xs : List A)
      → KeysAreUnique xs
      → exists (covers id n) xs ≡ true
      → bump (at id n) (update (covers id n) (λ a. put (stock a - n) a) xs) ≡ xs
  unfolding bump
  bump-deduct id n [] u e = cc
  bump-deduct id n (x ∷ xs) u e = elim (Bool-cases (key x == id)) [
    | inl h ↦
        let absent : exists (has_key id) xs ≡ false =
          subst (λ k. exists (has_key k) xs ≡ false) ((==_iff _ _).0 h) u.0 in
        ground (
          arith,
          put-stock x,
          stock-put (stock x - n) x,
          key-put (stock x - n) x,
          put-put (stock x - n + n) (stock x - n) x,
          covers-absent id n xs absent,
          bump-elsewhere id n xs absent,
        )
    | inr h ↦ ground (arith, put-stock x, bump-deduct id n xs u.1)
  ]

  has_key-update :
      (id : ℕ) (p : A → Bool) (g : A → ℕ) (xs : List A)
      → exists (has_key id) (update p (λ a. put (g a) a) xs) ≡ exists (has_key id) xs
  has_key-update id p g [] = refl
  has_key-update id p g (x ∷ xs) = ground (arith, key-put (g x) x, has_key-update id p g xs)

  -- An update of the stock keeps the keys apart.
  pub update-KeysAreUnique :
      (p : A → Bool) (g : A → ℕ) (xs : List A)
      → KeysAreUnique xs
      → KeysAreUnique (update p (λ a. put (g a) a) xs)
  update-KeysAreUnique p g [] u = tt
  update-KeysAreUnique p g (x ∷ xs) u = (
    ground (arith, key-put (g x) x, has_key-update (key x) p g xs, u.0),
    update-KeysAreUnique p g xs u.1,
  )
