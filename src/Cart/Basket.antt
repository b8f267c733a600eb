-- ===== src/Cart/Basket.antt =====
-- The cart as a customer sees it, a number for each product and variant, and how the operations of
-- server/src/modules/cart/cart.service.ts act on it.
use mathlib.Core.Bool.{false≢true}
use gramoz.Common.{
  ℕ, ◌+◌, ◌≡◌, refl, ap, ◌∙◌, sym, subst, Bool, true, false, ◌&&◌, Option, none, some, List, ◌∷◌,
  arith, ◌==◌, if◌then◌else◌, ==_iff, Bool-cases, Option-cases, inl, inr,
}
use gramoz.Table.{find, update, delete}
use gramoz.Table.Laws.{find_sound, find-changed}
use gramoz.Table.Unique.{
  UniqueBy, Single, find_unique, find-update-none, find-delete_kept, find-delete-none,
  find-delete-Single,
}
use gramoz.Schema.{Db}
use gramoz.Schema.Rows.{CartItem}
use gramoz.Cart.{in_slot, is_item, same_variant}

-- Whose cart, and what is in it.
pub record Slot : Type 0 where
  pub user : ℕ
  pub product : ℕ
  pub variant : Option ℕ

abbrev pub Basket : Type 0
Basket = Slot → ℕ

abbrev pub at : Slot → CartItem → Bool
at s i = in_slot s.user s.product s.variant i

abbrev pub slot_of : CartItem → Slot
slot_of i = record { user = i.user_id; product = i.product_id; variant = i.variant_id }

abbrev pub same_slot : Slot → Slot → Bool
same_slot s t = s.user == t.user && (s.product == t.product && same_variant s.variant t.variant)

-- What is in a customer's cart.
abbrev pub quantity_of : Option CartItem → ℕ
quantity_of none = 0
quantity_of (some i) = i.quantity

unfoldable pub basket : Db → Basket
basket db s = quantity_of (find (at s) db.cart_items)

-- The operations on baskets.
pub data BasketOp : Type 0 where
  puts sets : Slot → ℕ → BasketOp
  clears : ℕ → BasketOp

abbrev pub apply : BasketOp → Basket → Basket
apply (puts s n) b t = if same_slot s t then b s + n else b t
apply (sets s n) b t = if same_slot s t then n else b t
apply (clears u) b t = if t.user == u then 0 else b t

-- The unique indexes of the table.
abbrev pub same_id : CartItem → CartItem → Bool
same_id i j = i.id == j.id

abbrev pub same_place : CartItem → CartItem → Bool
same_place i j = same_slot (slot_of i) (slot_of j)

pub record Indexed (db : Db) : Type 0 where
  pub ids : UniqueBy same_id db.cart_items
  pub slots : UniqueBy same_place db.cart_items

-- A change of the tables is this operation on baskets, and keeps the indexes.
pub record Refines (op : BasketOp) (a b : Db) : Type 0 where
  pub view : (t : Slot) → basket b t ≡ apply op (basket a) t
  pub indexed : Indexed b

same_variant_iff : (v w : Option ℕ) → same_variant v w ≡ true → v ≡ w
same_variant_iff none none h = refl
same_variant_iff none (some w) h = cc
same_variant_iff (some v) none h = cc
same_variant_iff (some v) (some w) h = ap (λ x. some x) ((==_iff v w).0 h)

same_slot_eq : (s t : Slot) → same_slot s t ≡ true → s ≡ t
same_slot_eq s t h = ground (arith, same_variant_iff s.variant t.variant, h)

same_variant_refl : (v : Option ℕ) → same_variant v v ≡ true
same_variant_refl none = refl
same_variant_refl (some v) = ground arith

at-Single : (s : Slot) → Single same_place (at s)
at-Single s x y h k =
    subst (λ t. same_slot (slot_of x) t ≡ true) (sym (same_slot_eq (slot_of y) s k)) h

is_item-Single : (id user : ℕ) → Single same_id (is_item id user)
is_item-Single id user x y h k = ground (arith, h, k)

same_slot_refl : (s : Slot) → same_slot s s ≡ true
same_slot_refl s = ground (arith, same_variant_refl s.variant)

pub same_slot_sym : (s t : Slot) → same_slot s t ≡ true → same_slot t s ≡ true
same_slot_sym s t h = subst (λ r. same_slot r s ≡ true) (same_slot_eq s t h) (same_slot_refl s)

-- A row is at one slot only.
pub at_one : (s t : Slot) (i : CartItem) → at t i ≡ true → same_slot s t ≡ false → at s i ≡ false
at_one s t i h d = elim (Bool-cases (at s i)) [
  | inl y ↦
      absurd (false≢true (sym d ∙ ap (λ r. same_slot r t) (sym (same_slot_eq (slot_of i) s y)) ∙ h))
  | inr n ↦ n
]

-- Insertion into a free slot.
pub insert_view :
    (s t : Slot) (i : CartItem) (rows : List CartItem)
    → slot_of i ≡ s
    → find (at s) rows ≡ none
    → quantity_of (find (at t) (i ∷ rows)) ≡ (
        if same_slot s t
        then quantity_of (find (at s) rows) + i.quantity
        else quantity_of (find (at t) rows))
insert_view s t i rows e free = ground (arith, free, ap (λ r. same_slot r t) e)

-- An update of the row at a slot, and of no other.
pub update_view :
    (s t : Slot) (q : CartItem → Bool) (f : CartItem → CartItem) (rows : List CartItem)
    (old : CartItem)
    → ((x : CartItem) → slot_of (f x) ≡ slot_of x)
    → find (at s) rows ≡ some old
    → q old ≡ true
    → ((x : CartItem) → find (at t) rows ≡ some x → same_slot s t ≡ false → q x ≡ false)
    → quantity_of (find (at t) (update q f rows))
      ≡ (if same_slot s t then (f old).quantity else quantity_of (find (at t) rows))
update_view s t q f rows old k h y n = elim (Bool-cases (same_slot s t)) [
  | inl same ↦
      ap (λ r. quantity_of (find (at r) (update q f rows))) (sym (same_slot_eq s t same))
      ∙ ap quantity_of (find-changed (at s) q f rows (λ x. ap (λ r. same_slot r s) (k x)) h)
      ∙ ground (arith, y, same)
  | inr other ↦ elim (Option-cases (find (at t) rows)) [
    | inl none_there ↦
        ap quantity_of
          (find-update-none (at t) q f rows (λ x. ap (λ r. same_slot r t) (k x)) none_there)
        ∙ ground (arith, other, none_there)
    | inr (x, there) ↦
        ap quantity_of (find-changed (at t) q f rows (λ x. ap (λ r. same_slot r t) (k x)) there)
        ∙ ground (arith, other, there, n x there other)
  ]
]

-- The same for a delete.
pub delete_view :
    (s t : Slot) (q : CartItem → Bool) (rows : List CartItem) (old : CartItem)
    → UniqueBy same_place rows
    → find (at s) rows ≡ some old
    → q old ≡ true
    → ((x : CartItem) → find (at t) rows ≡ some x → same_slot s t ≡ false → q x ≡ false)
    → quantity_of (find (at t) (delete q rows))
      ≡ (if same_slot s t then 0 else quantity_of (find (at t) rows))
delete_view s t q rows old u h y n = elim (Bool-cases (same_slot s t)) [
  | inl same ↦
      ap (λ r. quantity_of (find (at r) (delete q rows))) (sym (same_slot_eq s t same))
      ∙ ap quantity_of (find-delete-Single same_place (at s) q rows (at-Single s) u h y)
      ∙ ground (arith, same)
  | inr other ↦ elim (Option-cases (find (at t) rows)) [
    | inl none_there ↦
        ap quantity_of (find-delete-none (at t) q rows none_there)
        ∙ ground (arith, other, none_there)
    | inr (x, there) ↦
        ap quantity_of (find-delete_kept (at t) q rows there (n x there other))
        ∙ ground (arith, other, there)
  ]
]

-- The row that an id names stands first in its slot, and in no other.
pub own_slot :
    (id user : ℕ) (db : Db) (i : CartItem)
    → Indexed db
    → find (is_item id user) db.cart_items ≡ some i
    → find (at (slot_of i)) db.cart_items ≡ some i
own_slot id user db i x h =
    find_unique same_place (at (slot_of i)) (is_item id user) db.cart_items (at-Single (slot_of i))
      x.slots h (same_slot_refl (slot_of i))

pub other_slot :
    (id user : ℕ) (db : Db) (i : CartItem) (t : Slot) (x : CartItem)
    → Indexed db
    → find (is_item id user) db.cart_items ≡ some i
    → find (at t) db.cart_items ≡ some x
    → same_slot (slot_of i) t ≡ false
    → is_item id user x ≡ false
other_slot id user db i t x u h g d = elim (Bool-cases (is_item id user x)) [
  | inl y ↦
      let named =
        find_unique same_id (is_item id user) (at t) db.cart_items (is_item-Single id user) u.ids g
          y in
      let same : i ≡ x = ground (arith, h, named) in
      absurd (
        false≢true
          (sym d ∙ ap (λ r. same_slot (slot_of r) t) same ∙ find_sound (at t) db.cart_items g))
  | inr n ↦ n
]
