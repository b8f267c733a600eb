-- ===== src/Addresses.antt =====
-- The customers' addresses: server/src/modules/addresses/addresses.service.ts and
-- addresses.store.ts. An id that the database gives a new row comes with the call.
pub mod Marking
pub mod Defaults
use gramoz.Common.{
  ℕ, String, Bool, true, false, not, ◌&&◌, Option, none, some, List, ◌∷◌, ◌==◌, if◌then◌else◌,
  or_else,
}
use gramoz.Table.{find, select, update, delete, exists}
use gramoz.Schema.{Db}
use gramoz.Schema.Rows.{Address}
use gramoz.Tx.{
  Tx, pure, read, write, throw_if, or_throw, when, ◌>>=◌, ◌>>◌, entity_not_found, invalid_operation,
  address_not_found, address_in_use,
}

-- The columns that are kept in the model; `is_default` is false if it is missing.
pub record CreateAddressDto : Type 0 where
  pub address_line1 : String
  pub city : String
  pub latitude : Option String
  pub longitude : Option String
  pub zone_id : Option ℕ
  pub is_default : Bool

-- A field that is missing is `none`, and is not set.
pub record UpdateAddressDto : Type 0 where
  pub address_line1 : Option String
  pub city : Option String
  pub latitude : Option String
  pub longitude : Option String
  pub zone_id : Option ℕ
  pub is_default : Option Bool

abbrev pub of_user : ℕ → Address → Bool
of_user user a = a.user_id == user

abbrev pub address_id_is : ℕ → Address → Bool
address_id_is id a = a.id == id

abbrev pub is_address : (id user : ℕ) → Address → Bool
is_address id user a = a.id == id && a.user_id == user

abbrev pub not_default : Address → Address
not_default a = record a { is_default = false }

abbrev pub as_default : Address → Address
as_default a = record a { is_default = true }

unfoldable pub unset_default : (user : ℕ) → Db → Db
unset_default user db = record db { addresses = update (of_user user) not_default db.addresses }

unfoldable pub set_address_as_default : (id : ℕ) → Db → Db
set_address_as_default id db = record db {
  addresses = update (address_id_is id) as_default db.addresses;
}

abbrev pub has_addresses : (user : ℕ) → Db → Bool
has_addresses user db = exists (of_user user) db.addresses

abbrev pub find_one_by_id : (id user : ℕ) → Db → Option Address
find_one_by_id id user db = find (is_address id user) db.addresses

abbrev pub created_address : (id user : ℕ) → CreateAddressDto → (default : Bool) → Address
created_address id user dto default = record {
  id = id;
  user_id = user;
  address_line1 = dto.address_line1;
  city = dto.city;
  latitude = dto.latitude;
  longitude = dto.longitude;
  zone_id = dto.zone_id;
  is_default = default;
}

-- The first address of a customer is the default.
unfoldable pub insert_address : (id user : ℕ) → CreateAddressDto → (has : Bool) → Tx Address
insert_address id user dto has =
    let row = created_address id user dto (if not has then true else dto.is_default) in
    write (λ db. record db { addresses = row ∷ db.addresses }) >> pure row

unfoldable pub create_address : (id user : ℕ) → CreateAddressDto → Tx Address
create_address id user dto =
    when dto.is_default (write (unset_default user))
    >> read (has_addresses user)
    >>= insert_address id user dto

unfoldable pub find_one : (id user : ℕ) → Tx Address
find_one id user = do
  address ← read (find_one_by_id id user)
  or_throw address (entity_not_found address_not_found)

abbrev pub keep_or : Option String → Option String → Option String
keep_or none b = b
keep_or (some a) b = some a

abbrev pub updated_address : UpdateAddressDto → Address → Address
updated_address dto a = record a {
  address_line1 = or_else dto.address_line1 a.address_line1;
  city = or_else dto.city a.city;
  latitude = keep_or dto.latitude a.latitude;
  longitude = keep_or dto.longitude a.longitude;
  zone_id = elim dto.zone_id [ none ↦ a.zone_id | some z ↦ some z ];
  is_default = or_else dto.is_default a.is_default;
}

unfoldable pub update_address : (id user : ℕ) → UpdateAddressDto → Tx (Option Address)
update_address id user dto = do
  found ← find_one id user
  when (or_else dto.is_default false) (write (unset_default user))
  write (λ db. record db {
    addresses = update (is_address id user) (updated_address dto) db.addresses;
  })
  read (find_one_by_id id user)

-- The next default is any address of the customer; the model takes the first row.
unfoldable pub choose_default : (next : Option Address) → Db → Db
choose_default none db = db
choose_default (some a) db = set_address_as_default a.id db

-- A foreign key keeps the addresses of orders.
unfoldable pub remove_found : (id user : ℕ) → (found : Address) → Tx (Unit {0})
remove_found id user found = do
  throw_if (← read (λ db. exists (λ o. o.shipping_address_id == id) db.orders))
      (invalid_operation address_in_use)
  write (λ db. record db { addresses = delete (is_address id user) db.addresses })
  next ← read (λ db. find (of_user user) db.addresses)
  when found.is_default (write (choose_default next))

unfoldable pub remove_address : (id user : ℕ) → Tx (Unit {0})
remove_address id user = find_one id user >>= remove_found id user

unfoldable pub set_default : (id user : ℕ) → Tx (Option Address)
set_default id user = do
  found ← find_one id user
  write (unset_default user)
  write (set_address_as_default id)
  read (λ db. find (address_id_is id) db.addresses)
