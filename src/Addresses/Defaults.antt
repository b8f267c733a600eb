-- ===== src/Addresses/Defaults.antt =====
-- The default address: server/src/modules/addresses/addresses.service.ts.
use gramoz.Common.{
  ℕ, ◌≡◌, ◌≤◌, refl, sym, ◌∙◌, subst, Bool, true, false, not, Option, some, List, [], ◌∷◌, length,
  arith, ◌==◌, if◌then◌else◌, Bool-cases, Option-cases, inl, inr, or_else,
}
use gramoz.Table.{find, select, update, delete, exists}
use gramoz.Table.Laws.{find_sound, select-none}
use gramoz.Table.Unique.{
  UniqueBy, Single, exists_weaken, exists-update, update-UniqueBy, delete-UniqueBy, find_unique,
  find-none-exists, find-delete-Single,
}
use gramoz.Table.Update.{update-UniqueBy_le}
use gramoz.Schema.{Db}
use gramoz.Schema.Rows.{Address}
use gramoz.Tx.{ok}
use gramoz.Addresses.{
  CreateAddressDto, UpdateAddressDto, of_user, address_id_is, is_address, not_default, as_default,
  unset_default, set_address_as_default, create_address, insert_address, created_address, find_one,
  update_address, updated_address, remove_address, remove_found, choose_default, set_default,
}
use gramoz.Addresses.Marking.{
  same_row, default_of, both_default, Defaults, unset-Defaults, unset_none, marked-Defaults,
  set_own, set_after_unset,
}

-- A row that is created.
created_Defaults :
    (id user : ℕ) (dto : CreateAddressDto) (b : Bool) (rows : List Address)
    → Defaults rows
    → exists (λ y. id == y.id) rows ≡ false
    → (b ≡ true → exists (default_of user) rows ≡ false)
    → Defaults (created_address id user dto b ∷ rows)
created_Defaults id user dto true rows d n h = record {
  ids = (n, d.ids);
  single = (
    exists_weaken (both_default (created_address id user dto true)) (default_of user) rows
        (λ y e. ground (arith, e)) (h refl),
    d.single,
  );
}
created_Defaults id user dto false rows d n h = record {
  ids = (n, d.ids);
  single = (
    exists_weaken (both_default (created_address id user dto false)) (λ _. false) rows
        (λ y e. ground (arith, e)) (never rows),
    d.single,
  );
}
  where
    never : (rows : List Address) → exists (λ _. false) rows ≡ false
    never [] = refl
    never (x ∷ rows) = never rows

create-Defaults :
    (id user : ℕ) (dto : CreateAddressDto) (a : Db) {r : Address} {b : Db}
    → Defaults a.addresses
    → exists (λ (y : Address). id == y.id) a.addresses ≡ false
    → create_address id user dto a ≡ ok (r, b)
    → Defaults b.addresses
unfolding create_address insert_address unset_default
create-Defaults id user dto a {r} {b} d n h = elim (Bool-cases dto.is_default) [
  | inl i ↦
      let unset = update (of_user user) not_default a.addresses in
      let default = if not (exists (of_user user) unset) then true else dto.is_default in
      let written : b.addresses ≡ created_address id user dto default ∷ unset =
        ground (arith, i, h) in
      subst Defaults (sym written) (
        created_Defaults id user dto default unset (unset-Defaults user a.addresses d)
          (exists-update (λ (y : Address). id == y.id) (of_user user) not_default a.addresses
              (λ y. refl)
            ∙ n)
          (λ _. unset_none user a.addresses))
  | inr i ↦
      let default = if not (exists (of_user user) a.addresses) then true else dto.is_default in
      let written : b.addresses ≡ created_address id user dto default ∷ a.addresses =
        ground (arith, i, h) in
      subst Defaults (sym written) (
        created_Defaults id user dto default a.addresses d n (λ y.
          exists_weaken (default_of user) (of_user user) a.addresses (λ x k. ground (arith, k))
            (ground (arith, i, y))))
]

-- An update that sets no default leaves fewer of them.
no_more :
    (dto : UpdateAddressDto) (x y : Address)
    → or_else dto.is_default false ≡ false
    → both_default (updated_address dto x) y ≡ true
    → both_default x y ≡ true
no_more dto x y i k = elim (Option-cases dto.is_default) [
  | inl n ↦ ground (arith, n, k)
  | inr (v, n) ↦ ground (arith, n, i, k)
]

no_more_right :
    (dto : UpdateAddressDto) (x y : Address)
    → or_else dto.is_default false ≡ false
    → both_default x (updated_address dto y) ≡ true
    → both_default x y ≡ true
no_more_right dto x y i k = elim (Option-cases dto.is_default) [
  | inl n ↦ ground (arith, n, k)
  | inr (v, n) ↦ ground (arith, n, i, k)
]

update-Defaults :
    (id user : ℕ) (dto : UpdateAddressDto) (a : Db) {r : Option Address} {b : Db}
    → Defaults a.addresses
    → update_address id user dto a ≡ ok (r, b)
    → Defaults b.addresses
unfolding update_address find_one unset_default
update-Defaults id user dto a {r} {b} d h =
    elim (Option-cases (find (is_address id user) a.addresses)) [
      | inl n ↦ ground (arith, n, h)
      | inr (x, n) ↦ elim (Bool-cases (or_else dto.is_default false)) [
        | inl i ↦
            let unset = update (of_user user) not_default a.addresses in
            let written : b.addresses ≡ update (is_address id user) (updated_address dto) unset =
              ground (arith, n, i, h) in
            subst Defaults (sym written) (
              marked-Defaults user (is_address id user) (updated_address dto)
                (λ x y h k. ground (arith, h, k)) (λ x h. ground (arith, h)) (λ x. refl) (λ x. refl)
                unset (unset-Defaults user a.addresses d) (unset_none user a.addresses))
        | inr i ↦
            let written : b.addresses
                ≡ update (is_address id user) (updated_address dto) a.addresses =
              ground (arith, n, i, h) in
            subst Defaults (sym written) (record {
              ids =
                  update-UniqueBy same_row (is_address id user) (updated_address dto) a.addresses
                    (λ x y. refl) (λ x y. refl) d.ids;
              single =
                  update-UniqueBy_le both_default (is_address id user) (updated_address dto)
                    a.addresses (λ x y k. no_more dto x y i k) (λ x y k. no_more_right dto x y i k)
                    d.single;
            })
      ]
    ]

own_Single : (id user : ℕ) → Single same_row (is_address id user)
own_Single id user x y h k = ground (arith, h, k)

default_Single : (user : ℕ) → Single both_default (default_of user)
default_Single user x y h k = ground (arith, h, k)

removed-Defaults :
    (id user : ℕ) (rows : List Address)
    → Defaults rows
    → Defaults (delete (is_address id user) rows)
removed-Defaults id user rows d = record {
  ids = delete-UniqueBy same_row (is_address id user) rows d.ids;
  single = delete-UniqueBy both_default (is_address id user) rows d.single;
}

-- Without its default the customer has none.
removed_none :
    (id user : ℕ) (rows : List Address) {a : Address}
    → Defaults rows
    → find (is_address id user) rows ≡ some a
    → a.is_default ≡ true
    → exists (default_of user) (delete (is_address id user) rows) ≡ false
removed_none id user rows {a} d e i =
    let own : is_address id user a ≡ true = find_sound (is_address id user) rows e in
    let there : find (default_of user) rows ≡ some a =
      find_unique both_default (default_of user) (is_address id user) rows (default_Single user)
        d.single e (ground (arith, own, i)) in
    find-none-exists (default_of user) (delete (is_address id user) rows) (
      find-delete-Single both_default (default_of user) (is_address id user) rows
        (default_Single user) d.single there own)

remove-Defaults :
    (id user : ℕ) (a : Db) {b : Db}
    → Defaults a.addresses
    → remove_address id user a ≡ ok (tt, b)
    → Defaults b.addresses
unfolding remove_address remove_found choose_default find_one set_address_as_default
remove-Defaults id user a {b} d h = elim (Option-cases (find (is_address id user) a.addresses)) [
  | inl n ↦ ground (arith, n, h)
  | inr (x, n) ↦
      let rest = delete (is_address id user) a.addresses in
      let kept = removed-Defaults id user a.addresses d in
      elim (Bool-cases x.is_default) [
        | inr i ↦
            let written : b.addresses ≡ rest = ground (arith, n, i, h) in
            subst Defaults (sym written) kept
        | inl i ↦ elim (Option-cases (find (of_user user) rest)) [
          | inl m ↦
              let written : b.addresses ≡ rest = ground (arith, n, i, m, h) in
              subst Defaults (sym written) kept
          | inr (y, m) ↦
              let written : b.addresses ≡ update (address_id_is y.id) as_default rest =
                ground (arith, n, i, m, h) in
              let own : find (is_address y.id user) rest ≡ some y =
                find_unique same_row (is_address y.id user) (of_user user) rest
                  (own_Single y.id user) kept.ids m
                  (ground (arith, find_sound (of_user user) rest m)) in
              subst Defaults (sym written)
                (set_own y.id user rest kept own (removed_none id user a.addresses d n i))
        ]
      ]
]

set-Defaults :
    (id user : ℕ) (a : Db) {r : Option Address} {b : Db}
    → Defaults a.addresses
    → set_default id user a ≡ ok (r, b)
    → Defaults b.addresses
unfolding set_default find_one unset_default set_address_as_default
set-Defaults id user a {r} {b} d h = elim (Option-cases (find (is_address id user) a.addresses)) [
  | inl n ↦ ground (arith, n, h)
  | inr (x, n) ↦
      let written : b.addresses
          ≡ update (address_id_is id) as_default (update (of_user user) not_default a.addresses) =
        ground (arith, n, h) in
      subst Defaults (sym written) (set_after_unset id user a.addresses d n)
]

-- A call of the service that succeeds; a new row has an id that no row has.
pub data AddressStep (a b : Db) : Type 0 where
  creates :
      (id user : ℕ) (dto : CreateAddressDto) (r : Address)
      → exists (λ (y : Address). id == y.id) a.addresses ≡ false
      → create_address id user dto a ≡ ok (r, b)
      → AddressStep a b
  updates :
      (id user : ℕ) (dto : UpdateAddressDto) (r : Option Address)
      → update_address id user dto a ≡ ok (r, b)
      → AddressStep a b
  removes : (id user : ℕ) → remove_address id user a ≡ ok (tt, b) → AddressStep a b
  selects : (id user : ℕ) (r : Option Address) → set_default id user a ≡ ok (r, b) → AddressStep a b

pub data AddressRun : Db → Db → Type 0 where
  done : {a : Db} → AddressRun a a
  next : {a b c : Db} → AddressStep a b → AddressRun b c → AddressRun a c

step-Defaults : (a b : Db) → Defaults a.addresses → AddressStep a b → Defaults b.addresses
step-Defaults a b d (creates id user dto r n h) = create-Defaults id user dto a d n h
step-Defaults a b d (updates id user dto r h) = update-Defaults id user dto a d h
step-Defaults a b d (removes id user h) = remove-Defaults id user a d h
step-Defaults a b d (selects id user r h) = set-Defaults id user a d h

run-Defaults : (a b : Db) → Defaults a.addresses → AddressRun a b → Defaults b.addresses
run-Defaults a b d done = d
run-Defaults a b d (next {b = m} s r) = run-Defaults m b (step-Defaults a m d s) r

at_most_one :
    (user : ℕ) (rows : List Address)
    → UniqueBy both_default rows
    → length (select (default_of user) rows) ≤ 1
at_most_one user [] u = ground arith
at_most_one user (x ∷ rows) u = elim (Bool-cases (default_of user x)) [
  | inl y ↦
      let rest : select (default_of user) rows ≡ [] =
        select-none (default_of user) rows (
          exists_weaken (default_of user) (both_default x) rows (λ q e. ground (arith, y, e))
            u.0) in
      ground (arith, y, rest)
  | inr y ↦ ground (arith, y, at_most_one user rows u.1)
]

-- Over any run of the service, from addresses with unique ids and at most one default for each
-- customer, every customer has at most one default address.
pub one_default :
    (a b : Db) (user : ℕ)
    → Defaults a.addresses
    → AddressRun a b
    → length (select (default_of user) b.addresses) ≤ 1
one_default a b user d r = at_most_one user b.addresses (run-Defaults a b d r).single
