-- ===== src/Table/Unique.antt =====
-- Tables with a unique index, and what queries find after an update or a delete.
use gramoz.Common.{
  ◌≡◌, refl, ◌∙◌, sym, Bool, true, false, none, some, List, [], ◌∷◌, arith, Bool-cases, inl, inr,
  if◌then◌else◌,
}
use gramoz.Table.{find, update, delete, exists}
use gramoz.Table.Laws.{exists-find}

module _ {A : Type 0} where
  -- No row is the same as an earlier one.
  abbrev pub UniqueBy : (A → A → Bool) → List A → Type 0
  UniqueBy same [] = Unit {0}
  UniqueBy same (x ∷ xs) = (exists (same x) xs ≡ false) × UniqueBy same xs

  -- A query of which at most one row can be found.
  abbrev pub Single : (A → A → Bool) → (A → Bool) → Type 0
  Single same p = (x y : A) → p x ≡ true → p y ≡ true → same x y ≡ true

  pub exists_weaken :
      (p q : A → Bool) (xs : List A)
      → ((x : A) → p x ≡ true → q x ≡ true)
      → exists q xs ≡ false
      → exists p xs ≡ false
  exists_weaken p q [] k h = refl
  exists_weaken p q (x ∷ xs) k h = ground (arith, k x, exists_weaken p q xs k)

  pub find-none-exists : (p : A → Bool) (xs : List A) → find p xs ≡ none → exists p xs ≡ false
  find-none-exists p [] h = refl
  find-none-exists p (x ∷ xs) h = ground (arith, find-none-exists p xs)

  pub alone :
      (same : A → A → Bool) (p : A → Bool) (x : A) (xs : List A)
      → Single same p
      → p x ≡ true
      → exists (same x) xs ≡ false
      → exists p xs ≡ false
  alone same p x xs s h u = exists_weaken p (same x) xs (λ y k. s x y h k) u

  -- A row found by any query is the row found by a single query that it meets.
  pub find_unique :
      (same : A → A → Bool) (p q : A → Bool) (xs : List A) {a : A}
      → Single same p
      → UniqueBy same xs
      → find q xs ≡ some a
      → p a ≡ true
      → find p xs ≡ some a
  find_unique same p q [] s u f h = cc
  find_unique same p q (x ∷ xs) {a} s u f h = elim (Bool-cases (q x)) [
    | inl y ↦ ground (arith, y, f, h)
    | inr y ↦
        let rest : find p xs ≡ some a = find_unique same p q xs s u.1 (ground (arith, y, f)) h in
        elim (Bool-cases (p x)) [
          | inl z ↦
              let gone : find p xs ≡ none = exists-find p xs (alone same p x xs s z u.0) in
              ground (arith, rest, gone)
          | inr z ↦ ground (arith, z, rest)
        ]
  ]

  -- What an update does not touch.
  pub find-update_apart :
      (p q : A → Bool) (f : A → A) (xs : List A)
      → ((x : A) → p (f x) ≡ p x)
      → ((x : A) → p x ≡ true → q x ≡ false)
      → find p (update q f xs) ≡ find p xs
  find-update_apart p q f [] k d = refl
  find-update_apart p q f (x ∷ xs) k d = ground (arith, k x, d x, find-update_apart p q f xs k d)

  pub find-update-none :
      (p q : A → Bool) (f : A → A) (xs : List A)
      → ((x : A) → p (f x) ≡ p x)
      → find p xs ≡ none
      → find p (update q f xs) ≡ none
  find-update-none p q f [] k h = refl
  find-update-none p q f (x ∷ xs) k h = ground (arith, k x, find-update-none p q f xs k)

  pub exists-update :
      (p q : A → Bool) (f : A → A) (xs : List A)
      → ((x : A) → p (f x) ≡ p x)
      → exists p (update q f xs) ≡ exists p xs
  exists-update p q f [] k = refl
  exists-update p q f (x ∷ xs) k = ground (arith, k x, exists-update p q f xs k)

  pub find-delete_kept :
      (p q : A → Bool) (xs : List A) {a : A}
      → find p xs ≡ some a
      → q a ≡ false
      → find p (delete q xs) ≡ some a
  find-delete_kept p q [] h k = cc
  find-delete_kept p q (x ∷ xs) {a} h k =
      ground (arith, λ (m : find p xs ≡ some a). find-delete_kept p q xs m k)

  pub find-delete-none :
      (p q : A → Bool) (xs : List A) → find p xs ≡ none → find p (delete q xs) ≡ none
  find-delete-none p q [] h = refl
  find-delete-none p q (x ∷ xs) h = ground (arith, find-delete-none p q xs)

  pub find-delete_all :
      (p q : A → Bool) (xs : List A)
      → ((x : A) → p x ≡ true → q x ≡ true)
      → find p (delete q xs) ≡ none
  find-delete_all p q [] k = refl
  find-delete_all p q (x ∷ xs) k = ground (arith, k x, find-delete_all p q xs k)

  pub find-delete_apart :
      (p q : A → Bool) (xs : List A)
      → ((x : A) → p x ≡ true → q x ≡ false)
      → find p (delete q xs) ≡ find p xs
  find-delete_apart p q [] d = refl
  find-delete_apart p q (x ∷ xs) d = ground (arith, d x, find-delete_apart p q xs d)

  -- The one row of a single query, deleted.
  pub find-delete-Single :
      (same : A → A → Bool) (p q : A → Bool) (xs : List A) {a : A}
      → Single same p
      → UniqueBy same xs
      → find p xs ≡ some a
      → q a ≡ true
      → find p (delete q xs) ≡ none
  find-delete-Single same p q [] s u h k = cc
  find-delete-Single same p q (x ∷ xs) {a} s u h k = elim (Bool-cases (p x)) [
    | inl y ↦
        let rest : find p (delete q xs) ≡ none =
          find-delete-none p q xs (exists-find p xs (alone same p x xs s y u.0)) in
        ground (arith, y, h, k, rest)
    | inr y ↦ ground (arith, y, h, find-delete-Single same p q xs s u.1 (ground (arith, y, h)) k)
  ]

  exists-delete :
      (p q : A → Bool) (xs : List A) → exists p xs ≡ false → exists p (delete q xs) ≡ false
  exists-delete p q [] h = refl
  exists-delete p q (x ∷ xs) h = ground (arith, exists-delete p q xs)

  cons_if :
      (same : A → A → Bool) (b : Bool) (x : A) (ys : List A)
      → exists (same x) ys ≡ false
      → UniqueBy same ys
      → UniqueBy same (if b then ys else x ∷ ys)
  cons_if same true x ys h u = u
  cons_if same false x ys h u = (h, u)

  pub delete-UniqueBy :
      (same : A → A → Bool) (q : A → Bool) (xs : List A)
      → UniqueBy same xs
      → UniqueBy same (delete q xs)
  delete-UniqueBy same q [] u = tt
  delete-UniqueBy same q (x ∷ xs) u =
      cons_if same (q x) x (delete q xs) (exists-delete (same x) q xs u.0)
        (delete-UniqueBy same q xs u.1)

  apart_if :
      (same : A → A → Bool) (b : Bool) (f : A → A) (x : A) (ys : List A)
      → ((x y : A) → same (f x) y ≡ same x y)
      → exists (same x) ys ≡ false
      → exists (same (if b then f x else x)) ys ≡ false
  apart_if same true f x ys k h = exists_weaken (same (f x)) (same x) ys (λ y e. sym (k x y) ∙ e) h
  apart_if same false f x ys k h = h

  pub update-UniqueBy :
      (same : A → A → Bool) (q : A → Bool) (f : A → A) (xs : List A)
      → ((x y : A) → same (f x) y ≡ same x y)
      → ((x y : A) → same x (f y) ≡ same x y)
      → UniqueBy same xs
      → UniqueBy same (update q f xs)
  update-UniqueBy same q f [] k l u = tt
  update-UniqueBy same q f (x ∷ xs) k l u = (
    apart_if same (q x) f x (update q f xs) k (exists-update (same x) q f xs (λ y. l x y) ∙ u.0),
    update-UniqueBy same q f xs k l u.1,
  )
