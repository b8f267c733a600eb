-- ===== src/Table/Laws.antt =====
-- Laws of the queries of `Table`.
use gramoz.Common.{
  ◌≡◌, refl, Bool, true, false, inl, inr, none, some, List, [], ◌∷◌, ◌++◌, arith, Bool-cases, ◌&&◌,
  if◌then◌else◌,
}
use gramoz.Table.{select, find, update, exists}

module _ {A : Type 0} where
  -- The row that a query finds meets its condition.
  pub find_sound : (p : A → Bool) (xs : List A) {a : A} → find p xs ≡ some a → p a ≡ true
  find_sound p [] e = cc
  find_sound p (x ∷ xs) e = elim (Bool-cases (p x)) [
    | inl h ↦ ground (arith, h)
    | inr h ↦ find_sound p xs (ground (arith, h))
  ]

  -- An update that keeps the condition of a query updates the row that the query finds.
  pub find-update :
      (p q : A → Bool) (f : A → A) (xs : List A) {a : A}
      → ((x : A) → p (f x) ≡ p x)
      → find p xs ≡ some a
      → q a ≡ true
      → find p (update q f xs) ≡ some (f a)
  find-update p q f [] keep e h = cc
  find-update p q f (x ∷ xs) {a} keep e h =
      ground (arith, keep x, λ (m : find p xs ≡ some a). find-update p q f xs keep m h)

  pub exists-find : (p : A → Bool) (xs : List A) → exists p xs ≡ false → find p xs ≡ none
  exists-find p [] e = refl
  exists-find p (x ∷ xs) e = ground (arith, exists-find p xs)

  pub update-none :
      (p : A → Bool) (f : A → A) (xs : List A) → exists p xs ≡ false → update p f xs ≡ xs
  update-none p f [] e = refl
  update-none p f (x ∷ xs) e = ground (arith, update-none p f xs)

  pub select-append :
      (p : A → Bool) (xs ys : List A) → select p (xs ++ ys) ≡ select p xs ++ select p ys
  select-append p [] ys = refl
  select-append p (x ∷ xs) ys = ground (arith, select-append p xs ys)

  pub select-none : (p : A → Bool) (xs : List A) → exists p xs ≡ false → select p xs ≡ []
  select-none p [] e = refl
  select-none p (x ∷ xs) e = ground (arith, select-none p xs)

module _ {A : Type 0} where
  -- The first row of a key is also the first of a narrower query that it meets.
  pub find-refine :
      (p q : A → Bool) (xs : List A) {a : A}
      → find p xs ≡ some a
      → q a ≡ true
      → find (λ x. p x && q x) xs ≡ some a
  find-refine p q [] e h = cc
  find-refine p q (x ∷ xs) {a} e h =
      ground (arith, λ (m : find p xs ≡ some a). find-refine p q xs m h)

  -- What a query finds after an update that keeps its condition.
  pub find-changed :
      (p q : A → Bool) (f : A → A) (xs : List A) {a : A}
      → ((x : A) → p (f x) ≡ p x)
      → find p xs ≡ some a
      → find p (update q f xs) ≡ some (if q a then f a else a)
  find-changed p q f [] k h = cc
  find-changed p q f (x ∷ xs) {a} k h =
      ground (arith, k x, λ (m : find p xs ≡ some a). find-changed p q f xs k m)

  -- A found row that meets a condition exists.
  pub exists_of_find :
      (p q : A → Bool) (xs : List A) {a : A} → find p xs ≡ some a → q a ≡ true → exists q xs ≡ true
  exists_of_find p q [] e h = cc
  exists_of_find p q (x ∷ xs) {a} e h =
      ground (arith, λ (m : find p xs ≡ some a). exists_of_find p q xs m h)
