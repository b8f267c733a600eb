-- ===== src/Table.antt =====
-- A database table is the list of its rows; what a query means is a function on that list.
-- The stores (server/src/modules/*/*.store.ts) build every statement from these.
pub mod Laws
pub mod Stock
pub mod Unique
pub mod Update
use gramoz.Common.{ℕ, ◌+◌, Bool, true, false, Option, none, some, List, [], ◌∷◌, if◌then◌else◌}
use gramoz.Common.Int.{ℤ, pos, ◌+ℤ◌}

module _ {ℓ} {A : Type ℓ} where
  -- select … where
  abbrev pub select : (A → Bool) → List A → List A
  select p [] = []
  select p (x ∷ xs) = if p x then x ∷ select p xs else select p xs

  -- const [row] = select … where
  abbrev pub find : (A → Bool) → List A → Option A
  find p [] = none
  find p (x ∷ xs) = if p x then some x else find p xs

  -- update … set … where
  abbrev pub update : (A → Bool) → (A → A) → List A → List A
  update p f [] = []
  update p f (x ∷ xs) = (if p x then f x else x) ∷ update p f xs

  -- delete … where
  abbrev pub delete : (A → Bool) → List A → List A
  delete p [] = []
  delete p (x ∷ xs) = if p x then delete p xs else x ∷ delete p xs

  -- Is a row returned?
  abbrev pub exists : (A → Bool) → List A → Bool
  exists p [] = false
  exists p (x ∷ xs) = if p x then true else exists p xs

  -- sum(…) of a column that is not negative
  abbrev pub sum_by : (A → ℕ) → List A → ℕ
  sum_by w [] = 0
  sum_by w (x ∷ xs) = w x + sum_by w xs

  -- sum(…) of a signed column
  abbrev pub sum_ℤ : (A → ℤ) → List A → ℤ
  sum_ℤ w [] = pos 0
  sum_ℤ w (x ∷ xs) = w x +ℤ sum_ℤ w xs
