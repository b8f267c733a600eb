-- ===== src/Addresses/Marking.antt =====
-- How a change of one address affects the defaults of the table behind
-- server/src/modules/addresses/addresses.store.ts.
use gramoz.Common.{
  ℕ, ◌≡◌, refl, ap, sym, subst, Bool, true, false, ◌&&◌, some, List, [], ◌∷◌, arith, ◌==◌,
  if◌then◌else◌, Bool-cases, inl, inr,
}
use gramoz.Table.{find, update, exists}
use gramoz.Table.Laws.{find_sound, exists_of_find, update-none, find-changed}
use gramoz.Table.Unique.{UniqueBy, exists_weaken, update-UniqueBy}
use gramoz.Table.Update.{update-UniqueBy_le}
use gramoz.Schema.Rows.{Address}
use gramoz.Addresses.{of_user, address_id_is, is_address, not_default, as_default}

abbrev pub same_row : Address → Address → Bool
same_row x y = x.id == y.id

abbrev pub default_of : ℕ → Address → Bool
default_of user a = a.user_id == user && a.is_default

-- Two default addresses of a customer.
abbrev pub both_default : Address → Address → Bool
both_default x y = default_of y.user_id x && y.is_default

pub record Defaults (rows : List Address) : Type 0 where
  pub ids : UniqueBy same_row rows
  pub single : UniqueBy both_default rows

pub unset-Defaults :
    (user : ℕ) (rows : List Address)
    → Defaults rows
    → Defaults (update (of_user user) not_default rows)
unset-Defaults user rows d = record {
  ids = update-UniqueBy same_row (of_user user) not_default rows (λ x y. refl) (λ x y. refl) d.ids;
  single =
      update-UniqueBy_le both_default (of_user user) not_default rows (λ x y h. ground (arith, h))
        (λ x y h. ground (arith, h)) d.single;
}

-- After that the customer has no default.
pub unset_none :
    (user : ℕ) (rows : List Address)
    → exists (default_of user) (update (of_user user) not_default rows) ≡ false
unset_none user [] = refl
unset_none user (a ∷ rows) = ground (arith, unset_none user rows)

-- One address of a customer without a default may become the default.
module _ (user : ℕ) (q : Address → Bool) (f : Address → Address)
    (one : (x y : Address) → q x ≡ true → q y ≡ true → (x.id == y.id) ≡ true)
    (own : (x : Address) → q x ≡ true → (x.user_id == user) ≡ true)
    (id_kept : (x : Address) → (f x).id ≡ x.id)
    (user_kept : (x : Address) → (f x).user_id ≡ x.user_id) where
  apart :
      (x : Address) (rows : List Address)
      → default_of user x ≡ false
      → exists (both_default x) rows ≡ false
      → exists (both_default x) (update q f rows) ≡ false
  apart x [] n h = refl
  apart x (y ∷ rows) n h = elim (Bool-cases (q y)) [
    | inl i ↦ ground (arith, i, own y i, user_kept y, n, h, apart x rows n)
    | inr i ↦ ground (arith, i, h, apart x rows n)
  ]

  marked_single :
      (rows : List Address)
      → UniqueBy same_row rows
      → UniqueBy both_default rows
      → exists (default_of user) rows ≡ false
      → UniqueBy both_default (update q f rows)
  marked_single [] u d n = tt
  marked_single (x ∷ rows) u d n = elim (Bool-cases (q x)) [
    | inl i ↦
        let rest : exists q rows ≡ false =
          exists_weaken q (same_row x) rows (λ y h. one x y i h) u.0 in
        let same : update q f rows ≡ rows = update-none q f rows rest in
        let alone : exists (both_default (f x)) rows ≡ false =
          exists_weaken (both_default (f x)) (default_of user) rows
            (λ y h. ground (arith, own x i, user_kept x, h)) (ground (arith, n)) in
        subst (λ b. UniqueBy both_default ((if b then f x else x) ∷ update q f rows)) (sym i)
          (subst (λ r. UniqueBy both_default (f x ∷ r)) (sym same) (alone, d.1))
    | inr i ↦
        subst (λ b. UniqueBy both_default ((if b then f x else x) ∷ update q f rows)) (sym i)
          (apart x rows (ground (arith, n)) d.0, marked_single rows u.1 d.1 (ground (arith, n)))
  ]

  pub marked-Defaults :
      (rows : List Address)
      → Defaults rows
      → exists (default_of user) rows ≡ false
      → Defaults (update q f rows)
  marked-Defaults rows d n = record {
    ids =
        update-UniqueBy same_row q f rows (λ x y. ap (λ i. i == y.id) (id_kept x))
          (λ x y. ap (λ i. x.id == i) (id_kept y)) d.ids;
    single = marked_single rows d.ids d.single n;
  }

-- The customer's address is the only one of its id.
only_own :
    (id user : ℕ) (f : Address → Address) (rows : List Address) {a : Address}
    → UniqueBy same_row rows
    → find (is_address id user) rows ≡ some a
    → update (address_id_is id) f rows ≡ update (is_address id user) f rows
only_own id user f [] u e = refl
only_own id user f (x ∷ rows) {a} u e = elim (Bool-cases (x.id == id)) [
  | inr i ↦ ground (arith, i, e, only_own id user f rows {a = a} u.1)
  | inl i ↦
      let none_id : exists (address_id_is id) rows ≡ false =
        exists_weaken (address_id_is id) (same_row x) rows (λ y h. ground (arith, i, h)) u.0 in
      let none_own : exists (is_address id user) rows ≡ false =
        exists_weaken (is_address id user) (same_row x) rows (λ y h. ground (arith, i, h)) u.0 in
      elim (Bool-cases (x.user_id == user)) [
        | inl j ↦ ground (
          arith,
          i,
          j,
          update-none (address_id_is id) f rows none_id,
          update-none (is_address id user) f rows none_own,
        )
        | inr j ↦
            let later : find (is_address id user) rows ≡ some a = ground (arith, i, j, e) in
            let there : exists (is_address id user) rows ≡ true =
              exists_of_find (is_address id user) (is_address id user) rows later
                (find_sound (is_address id user) rows later) in
            ground (arith, there, none_own)
      ]
]

-- A default for a customer who has none.
pub set_own :
    (id user : ℕ) (rows : List Address) {a : Address}
    → Defaults rows
    → find (is_address id user) rows ≡ some a
    → exists (default_of user) rows ≡ false
    → Defaults (update (address_id_is id) as_default rows)
set_own id user rows d e n = subst Defaults (sym (only_own id user as_default rows d.ids e)) (
    marked-Defaults user (is_address id user) as_default (λ x y h k. ground (arith, h, k))
      (λ x h. ground (arith, h)) (λ x. refl) (λ x. refl) rows d n)

-- Setting a default after unsetting them.
pub set_after_unset :
    (id user : ℕ) (rows : List Address) {a : Address}
    → Defaults rows
    → find (is_address id user) rows ≡ some a
    → Defaults (update (address_id_is id) as_default (update (of_user user) not_default rows))
set_after_unset id user rows {a} d e =
    let unset = update (of_user user) not_default rows in
    let e' : find (is_address id user) unset ≡ some (if of_user user a then not_default a else a) =
      find-changed (is_address id user) (of_user user) not_default rows (λ x. refl) e in
    set_own id user unset (unset-Defaults user rows d) e' (unset_none user rows)
