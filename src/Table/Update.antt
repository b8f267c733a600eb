-- ===== src/Table/Update.antt =====
-- Which rows exist after an update.
use gramoz.Common.{
  ◌≡◌, refl, ap, ◌∙◌, Bool, true, false, none, some, List, [], ◌∷◌, arith, Bool-cases, Option-cases,
  inl, inr, if◌then◌else◌,
}
use mathlib.Core.List.{Memᴰ}
use mathlib.Core.List.Memᴰ as Memᴰ
use gramoz.Table.{find, select, update, exists}
use gramoz.Table.Laws.{update-none, find-changed}
use gramoz.Table.Unique.{UniqueBy, alone, Single, find-update-none}

module _ {A : Type 0} where
  pub update_creates_none :
      (c q : A → Bool) (f : A → A) (xs : List A)
      → ((x : A) → c (f x) ≡ false)
      → exists c xs ≡ false
      → exists c (update q f xs) ≡ false
  update_creates_none c q f [] k h = refl
  update_creates_none c q f (x ∷ xs) k h = ground (arith, k x, update_creates_none c q f xs k)

  -- The one row of a query, updated so that it is no longer one.
  pub exists-update_gone :
      (same : A → A → Bool) (c q : A → Bool) (f : A → A) (xs : List A) {a : A}
      → Single same c
      → UniqueBy same xs
      → find c xs ≡ some a
      → q a ≡ true
      → ((x : A) → c (f x) ≡ false)
      → exists c (update q f xs) ≡ false
  exists-update_gone same c q f [] s u e h k = cc
  exists-update_gone same c q f (x ∷ xs) {a} s u e h k = elim (Bool-cases (c x)) [
    | inl y ↦
        let rest : exists c (update q f xs) ≡ false =
          update_creates_none c q f xs k (alone same c x xs s y u.0) in
        ground (arith, y, e, h, k x, rest)
    | inr y ↦
        let rest : exists c (update q f xs) ≡ false =
          exists-update_gone same c q f xs s u.1 (ground (arith, y, e)) h k in
        ground (arith, y, k x, rest)
  ]

  -- The row that a query finds, updated so that it meets a condition.
  pub exists-update_made :
      (c q : A → Bool) (f : A → A) (xs : List A) {a : A}
      → find q xs ≡ some a
      → c (f a) ≡ true
      → exists c (update q f xs) ≡ true
  exists-update_made c q f [] e h = cc
  exists-update_made c q f (x ∷ xs) {a} e h =
      ground (arith, λ (m : find q xs ≡ some a). exists-update_made c q f xs m h)

  pub exists-update_grow :
      (c q : A → Bool) (f : A → A) (xs : List A)
      → ((x : A) → c x ≡ true → c (f x) ≡ true)
      → exists c xs ≡ true
      → exists c (update q f xs) ≡ true
  exists-update_grow c q f [] k h = h
  exists-update_grow c q f (x ∷ xs) k h = ground (arith, k x, exists-update_grow c q f xs k)

  -- An update of one row that does not meet a condition leaves those that do.
  pub exists-update_other :
      (same : A → A → Bool) (c q : A → Bool) (f : A → A) (xs : List A) {a : A}
      → Single same q
      → UniqueBy same xs
      → find q xs ≡ some a
      → c a ≡ false
      → exists c xs ≡ true
      → exists c (update q f xs) ≡ true
  exists-update_other same c q f [] s u e h t = cc
  exists-update_other same c q f (x ∷ xs) {a} s u e h t = elim (Bool-cases (q x)) [
    | inl y ↦
        let rest : update q f xs ≡ xs = update-none q f xs (alone same q x xs s y u.0) in
        ground (arith, y, e, h, t, rest)
    | inr y ↦ ground (
      arith,
      y,
      e,
      t,
      λ (m : find q xs ≡ some a).
          λ (n : exists c xs ≡ true). exists-update_other same c q f xs s u.1 m h n,
    )
  ]

  exists-update_le :
      (p p' q : A → Bool) (f : A → A) (xs : List A)
      → ((y : A) → p y ≡ true → p' y ≡ true)
      → ((y : A) → p (f y) ≡ true → p' y ≡ true)
      → exists p' xs ≡ false
      → exists p (update q f xs) ≡ false
  exists-update_le p p' q f [] j k h = refl
  exists-update_le p p' q f (x ∷ xs) j k h = elim (Bool-cases (p (if q x then f x else x))) [
    | inl y ↦ ground (arith, y, j x, k x, h)
    | inr y ↦ ground (arith, y, h, exists-update_le p p' q f xs j k)
  ]

  apart_le :
      (same : A → A → Bool) (b : Bool) (q : A → Bool) (f : A → A) (x : A) (xs : List A)
      → ((x y : A) → same (f x) y ≡ true → same x y ≡ true)
      → ((x y : A) → same x (f y) ≡ true → same x y ≡ true)
      → exists (same x) xs ≡ false
      → exists (same (if b then f x else x)) (update q f xs) ≡ false
  apart_le same true q f x xs k l h =
      exists-update_le (same (f x)) (same x) q f xs (λ y e. k x y e) (λ y e. k x y (l (f x) y e)) h
  apart_le same false q f x xs k l h =
      exists-update_le (same x) (same x) q f xs (λ y e. e) (λ y e. l x y e) h

  -- An update that makes rows no more alike keeps a unique index.
  pub update-UniqueBy_le :
      (same : A → A → Bool) (q : A → Bool) (f : A → A) (xs : List A)
      → ((x y : A) → same (f x) y ≡ true → same x y ≡ true)
      → ((x y : A) → same x (f y) ≡ true → same x y ≡ true)
      → UniqueBy same xs
      → UniqueBy same (update q f xs)
  update-UniqueBy_le same q f [] k l u = tt
  update-UniqueBy_le same q f (x ∷ xs) k l u =
      (apart_le same (q x) q f x xs k l u.0, update-UniqueBy_le same q f xs k l u.1)

  -- A row found after an update was found before.
  pub find-update_inv :
      (p q : A → Bool) (f : A → A) (xs : List A) {b : A}
      → ((x : A) → p (f x) ≡ p x)
      → find p (update q f xs) ≡ some b
      → (a : A) × (find p xs ≡ some a) × (b ≡ (if q a then f a else a))
  find-update_inv p q f xs {b} k e = elim (Option-cases (find p xs)) [
    | inl n ↦
        let gone : find p (update q f xs) ≡ none = find-update-none p q f xs k n in
        ground (arith, e, gone)
    | inr (a, n) ↦
        let there : find p (update q f xs) ≡ some (if q a then f a else a) =
          find-changed p q f xs k n in
        (a, n, ground (arith, e, there))
  ]

  selected :
      (c : A → Bool) (b : Bool) (x : A) (xs ys : List A) {a : A}
      → c x ≡ b
      → (Memᴰ a ys → Memᴰ a xs × (c a ≡ true))
      → Memᴰ a (if b then x ∷ ys else ys)
      → Memᴰ a (x ∷ xs) × (c a ≡ true)
  selected c true x xs ys e k (Memᴰ.head h) = (Memᴰ.head h, ap c h ∙ e)
  selected c true x xs ys e k (Memᴰ.tail n) = let (m, t) = k n in (Memᴰ.tail m, t)
  selected c false x xs ys e k n = let (m, t) = k n in (Memᴰ.tail m, t)

  pub select-Memᴰ :
      (c : A → Bool) (xs : List A) {a : A} → Memᴰ a (select c xs) → Memᴰ a xs × (c a ≡ true)
  select-Memᴰ c [] m = absurd (Memᴰ.not-nil m)
  select-Memᴰ c (x ∷ xs) {a} m =
      selected c (c x) x xs (select c xs) refl (λ n. select-Memᴰ c xs n) m

  present : (q : A → Bool) (xs : List A) {a : A} → Memᴰ a xs → q a ≡ true → exists q xs ≡ true
  present q [] m h = absurd (Memᴰ.not-nil m)
  present q (x ∷ xs) (Memᴰ.head e) h = ground (arith, ap q e, h)
  present q (x ∷ xs) (Memᴰ.tail m) h = ground (arith, present q xs m h)

  -- The row of a unique key.
  pub find_Memᴰ :
      (same : A → A → Bool) (q : A → Bool) (xs : List A) {a : A}
      → Single same q
      → UniqueBy same xs
      → Memᴰ a xs
      → q a ≡ true
      → find q xs ≡ some a
  find_Memᴰ same q [] s u m h = absurd (Memᴰ.not-nil m)
  find_Memᴰ same q (x ∷ xs) s u (Memᴰ.head e) h = ground (arith, ap q e, h, e)
  find_Memᴰ same q (x ∷ xs) s u (Memᴰ.tail m) h = elim (Bool-cases (q x)) [
    | inl y ↦ ground (arith, present q xs m h, alone same q x xs s y u.0)
    | inr y ↦ ground (arith, y, find_Memᴰ same q xs s u.1 m h)
  ]
