-- ===== src/Cart/Refinement.antt =====
-- Every operation of server/src/modules/cart/cart.service.ts is an operation on baskets.
use gramoz.Common.{
  ℕ, ◌+◌, ◌≡◌, refl, ap, ◌∙◌, sym, subst, Bool, false, ◌&&◌, Option, none, some, List, ◌∷◌, arith,
  ◌==◌, if◌then◌else◌, Bool-cases, Option-cases, inl, inr,
}
use gramoz.Table.{find, update, delete, exists}
use gramoz.Table.Laws.{find_sound}
use gramoz.Table.Unique.{
  UniqueBy, find-delete_all, find-delete_apart, delete-UniqueBy, update-UniqueBy, find-none-exists,
  exists_weaken,
}
use gramoz.Schema.{Db}
use gramoz.Schema.Rows.{CartItem}
use gramoz.Tx.{ok, or_throw, insufficient_stock_error, stock_exceeded}
use gramoz.Tx.Post.{bind-inv, or_throw-inv}
use gramoz.Cart.{
  AddToCartDto, add_item, update_item, remove_item, clear_cart, in_slot, is_item, conflicting,
  put_item, upsert_cart_item, new_item, more, with_quantity, update_cart_item_quantity,
  check_addable, place_item, max_stock_for_add,
}
use gramoz.Cart.Basket.{
  BasketOp, Slot, at, slot_of, same_slot, basket, puts, sets, clears, same_id, same_place, Indexed,
  Refines, insert_view, update_view, delete_view, own_slot, other_slot, quantity_of, same_slot_sym,
  at_one,
}

check_addable_lem :
    (dto : AddToCartDto) (db : Db) {m : ℕ} {after : Db}
    → check_addable dto db ≡ ok (m, after)
    → after ≡ db
unfolding check_addable max_stock_for_add
check_addable_lem dto db h = ground arith

-- What `addItem` writes.
put_new :
    (id user : ℕ) (dto : AddToCartDto) (m : ℕ) (db : Db) {o : Option CartItem} {after : Db}
    → put_item id user dto m none db ≡ ok (o, after)
    → after.cart_items ≡ new_item id user dto ∷ db.cart_items
unfolding put_item
put_new id user dto m db h = ground arith

put_more :
    (id user : ℕ) (dto : AddToCartDto) (m : ℕ) (old : CartItem) (db : Db) {o : CartItem}
    {after : Db}
    → put_item id user dto m (some old) db ≡ ok (some o, after)
    → (after.cart_items
        ≡ update (in_slot user dto.product_id dto.variant_id) (more dto.quantity) db.cart_items)
unfolding put_item
put_more id user dto m old db h = ground arith

add_item-inv :
    (id user : ℕ) (dto : AddToCartDto) (db : Db) {i : CartItem} {after : Db}
    → add_item id user dto db ≡ ok (i, after)
    → (m : ℕ) × (put_item id user dto m (conflicting user dto db) db ≡ ok (some i, after))
unfolding add_item place_item upsert_cart_item
add_item-inv id user dto db {i} {after} h =
    let (m, mid, checks, placed) = bind-inv (check_addable dto) (place_item id user dto) db h in
    let (item, last, put, thrown) =
      bind-inv (upsert_cart_item id user dto m)
        (λ item. or_throw item (insufficient_stock_error stock_exceeded)) mid placed in
    let (full, end) = or_throw-inv item _ last thrown in
    let start : mid ≡ db = check_addable_lem dto db checks in
    (
      m,
      ap (λ d. put_item id user dto m (conflicting user dto d) d) (sym start)
          ∙ put
          ∙ ap (λ o. ok (o, last)) full
          ∙ ap (λ d. ok (some i, d)) end,
    )

-- The slot of a request.
abbrev slot : ℕ → AddToCartDto → Slot
slot user dto = record { user = user; product = dto.product_id; variant = dto.variant_id }

added-Refines :
    (id user : ℕ) (dto : AddToCartDto) (m : ℕ) (db after : Db) (i : CartItem)
    (found : Option CartItem)
    → exists (λ (j : CartItem). id == j.id) db.cart_items ≡ false
    → Indexed db
    → conflicting user dto db ≡ found
    → put_item id user dto m found db ≡ ok (some i, after)
    → Refines (puts (slot user dto) dto.quantity) db after
unfolding basket
added-Refines id user dto m db after i none fresh x c h =
    let rows = put_new id user dto m db h in
    record {
      view = λ t.
          ap (λ r. quantity_of (find (at t) r)) rows
          ∙ insert_view (slot user dto) t (new_item id user dto) db.cart_items refl c;
      indexed = record {
        ids = subst (UniqueBy same_id) (sym rows) (fresh, x.ids);
        slots = subst (UniqueBy same_place) (sym rows) (
          exists_weaken (same_place (new_item id user dto)) (at (slot user dto)) db.cart_items
              (λ j e. same_slot_sym (slot user dto) (slot_of j) e)
              (find-none-exists (at (slot user dto)) db.cart_items c),
          x.slots,
        );
      };
    }
added-Refines id user dto m db after i (some old) fresh x c h =
    let rows = put_more id user dto m old db h in
    record {
      view = λ t.
          ap (λ r. quantity_of (find (at t) r)) rows
          ∙ update_view (slot user dto) t (at (slot user dto)) (more dto.quantity) db.cart_items old
              (λ j. refl) c (find_sound (at (slot user dto)) db.cart_items c)
              (λ j there other.
                at_one (slot user dto) t j (find_sound (at t) db.cart_items there) other)
          ∙ ap
              (λ o.
                if same_slot (slot user dto) t
                then quantity_of o + dto.quantity
                else quantity_of (find (at t) db.cart_items))
              (sym c);
      indexed = record {
        ids = subst (UniqueBy same_id) (sym rows) (
            update-UniqueBy same_id (at (slot user dto)) (more dto.quantity) db.cart_items
              (λ j k. refl) (λ j k. refl) x.ids);
        slots = subst (UniqueBy same_place) (sym rows) (
            update-UniqueBy same_place (at (slot user dto)) (more dto.quantity) db.cart_items
              (λ j k. refl) (λ j k. refl) x.slots);
      };
    }

update_item-inv :
    (user id n : ℕ) (db : Db) {o : Option CartItem} {after : Db}
    → update_item user id n db ≡ ok (o, after)
    → (i : CartItem) × (find (is_item id user) db.cart_items ≡ some i)
      × (after.cart_items ≡ update (is_item id user) (with_quantity n) db.cart_items)
unfolding update_item update_cart_item_quantity
update_item-inv user id n db h = elim (Option-cases (find (is_item id user) db.cart_items)) [
  | inl none_there ↦ ground (arith, none_there, h)
  | inr (i, there) ↦ (i, there, ground (arith, there, h))
]

remove_item-inv :
    (user id : ℕ) (db : Db) {r : Unit {0}} {after : Db}
    → remove_item user id db ≡ ok (r, after)
    → (i : CartItem) × (find (is_item id user) db.cart_items ≡ some i)
      × (after.cart_items ≡ delete (is_item id user) db.cart_items)
unfolding remove_item
remove_item-inv user id db h = elim (Option-cases (find (is_item id user) db.cart_items)) [
  | inl none_there ↦ ground (arith, none_there, h)
  | inr (i, there) ↦ (i, there, ground (arith, there, h))
]

-- A call that succeeds; a new row has an id that no row has.
pub data CartStep (a b : Db) : Type 0 where
  adds :
      (id user : ℕ) (dto : AddToCartDto) (i : CartItem)
      → exists (λ (j : CartItem). id == j.id) a.cart_items ≡ false
      → add_item id user dto a ≡ ok (i, b)
      → CartStep a b
  changes :
      (user id n : ℕ) (o : Option CartItem) → update_item user id n a ≡ ok (o, b) → CartStep a b
  removes : (user id : ℕ) → remove_item user id a ≡ ok (tt, b) → CartStep a b
  empties : (user : ℕ) → clear_cart user a ≡ ok (tt, b) → CartStep a b

changed-Refines :
    (user id n : ℕ) (db after : Db) (i : CartItem)
    → Indexed db
    → find (is_item id user) db.cart_items ≡ some i
    → after.cart_items ≡ update (is_item id user) (with_quantity n) db.cart_items
    → Refines (sets (slot_of i) n) db after
unfolding basket
changed-Refines user id n db after i x f rows = record {
  view = λ t.
      ap (λ r. quantity_of (find (at t) r)) rows
      ∙ update_view (slot_of i) t (is_item id user) (with_quantity n) db.cart_items i (λ j. refl)
          (own_slot id user db i x f) (find_sound (is_item id user) db.cart_items f)
          (λ j there other. other_slot id user db i t j x f there other);
  indexed = record {
    ids = subst (UniqueBy same_id) (sym rows) (
        update-UniqueBy same_id (is_item id user) (with_quantity n) db.cart_items (λ j k. refl)
          (λ j k. refl) x.ids);
    slots = subst (UniqueBy same_place) (sym rows) (
        update-UniqueBy same_place (is_item id user) (with_quantity n) db.cart_items (λ j k. refl)
          (λ j k. refl) x.slots);
  };
}

deleted-Indexed :
    (q : CartItem → Bool) (db after : Db)
    → Indexed db
    → after.cart_items ≡ delete q db.cart_items
    → Indexed after
deleted-Indexed q db after x rows = record {
  ids = subst (UniqueBy same_id) (sym rows) (delete-UniqueBy same_id q db.cart_items x.ids);
  slots =
      subst (UniqueBy same_place) (sym rows) (delete-UniqueBy same_place q db.cart_items x.slots);
}

removed-Refines :
    (user id : ℕ) (db after : Db) (i : CartItem)
    → Indexed db
    → find (is_item id user) db.cart_items ≡ some i
    → after.cart_items ≡ delete (is_item id user) db.cart_items
    → Refines (sets (slot_of i) 0) db after
unfolding basket
removed-Refines user id db after i x f rows = record {
  view = λ t.
      ap (λ r. quantity_of (find (at t) r)) rows
      ∙ delete_view (slot_of i) t (is_item id user) db.cart_items i x.slots
          (own_slot id user db i x f) (find_sound (is_item id user) db.cart_items f)
          (λ j there other. other_slot id user db i t j x f there other);
  indexed = deleted-Indexed (is_item id user) db after x rows;
}

emptied_view :
    (user : ℕ) (t : Slot) (rows : List CartItem)
    → quantity_of (find (at t) (delete (λ i. i.user_id == user) rows))
      ≡ (if t.user == user then 0 else quantity_of (find (at t) rows))
emptied_view user t rows = elim (Bool-cases (t.user == user)) [
  | inl same ↦
      ap quantity_of
        (find-delete_all (at t) (λ i. i.user_id == user) rows (λ i h. ground (arith, h, same)))
      ∙ ground (arith, same)
  | inr other ↦
      ap quantity_of
        (find-delete_apart (at t) (λ i. i.user_id == user) rows (λ i h. ground (arith, h, other)))
      ∙ ground (arith, other)
]

emptied-Refines :
    (user : ℕ) (db after : Db)
    → Indexed db
    → clear_cart user db ≡ ok (tt, after)
    → Refines (clears user) db after
unfolding basket clear_cart
emptied-Refines user db after x h =
    let rows : after.cart_items ≡ delete (λ i. i.user_id == user) db.cart_items =
      ground (arith, h) in
    record {
      view = λ t. ap (λ r. quantity_of (find (at t) r)) rows ∙ emptied_view user t db.cart_items;
      indexed = deleted-Indexed (λ i. i.user_id == user) db after x rows;
    }

-- What a call asks for, as an operation on baskets: `addItem` adds its quantity at its slot,
-- `updateItem` and `removeItem` set the slot of the customer's row of that id, if there is one, to
-- the quantity or to 0, and `clearCart` clears the customer's slots.
abbrev pub row_op : (user id n : ℕ) → Db → Option BasketOp
row_op user id n a = elim (find (λ i. i.id == id && i.user_id == user) a.cart_items) [
  | none ↦ none
  | some i ↦ some (sets (slot_of i) n)
]

unfoldable pub asked : {a b : Db} → CartStep a b → Option BasketOp
asked (adds id user dto i fresh e) = some (puts (slot user dto) dto.quantity)
asked {a} (changes user id n o e) = row_op user id n a
asked {a} (removes user id e) = row_op user id 0 a
asked (empties user e) = some (clears user)

row_op-found :
    (user id n : ℕ) (a : Db) (i : CartItem)
    → find (is_item id user) a.cart_items ≡ some i
    → row_op user id n a ≡ some (sets (slot_of i) n)
row_op-found user id n a i f = ground (arith, f)

-- The cart is a number for each customer, product and variant: if the table has its unique indexes,
-- then every call of the service that succeeds, on whichever rows, changes these numbers by exactly
-- the operation it asks for (adding its quantity at its slot, setting the slot of the customer's row
-- to its quantity or to 0, clearing exactly its customer's slots), and keeps the indexes.
pub cart_simulates_basket :
    (a b : Db)
    → Indexed a
    → (step : CartStep a b) → (op : BasketOp) × (asked step ≡ some op) × Refines op a b
unfolding asked
cart_simulates_basket a b x (adds id user dto i fresh e) =
    let (m, put) = add_item-inv id user dto a e in
    (
      puts (slot user dto) dto.quantity,
      refl,
      added-Refines id user dto m a b i (conflicting user dto a) fresh x refl put,
    )
cart_simulates_basket a b x (changes user id n o e) =
    let (i, f, rows) = update_item-inv user id n a e in
    (sets (slot_of i) n, row_op-found user id n a i f, changed-Refines user id n a b i x f rows)
cart_simulates_basket a b x (removes user id e) =
    let (i, f, rows) = remove_item-inv user id a e in
    (sets (slot_of i) 0, row_op-found user id 0 a i f, removed-Refines user id a b i x f rows)
cart_simulates_basket a b x (empties user e) = (clears user, refl, emptied-Refines user a b x e)
