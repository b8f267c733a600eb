-- ===== src/Examples/Homes.antt =====
-- Addresses of the example shop's customers.
use gramoz.Common.{◌≡◌, ◌≤◌, refl, true, false, none, some, length, ◌==◌}
use gramoz.Table.{select, exists}
use gramoz.Schema.{Db}
use gramoz.Schema.Rows.{Address}
use gramoz.Tx.{ok}
use gramoz.Addresses.{
  CreateAddressDto, create_address, insert_address, created_address, unset_default, remove_address,
  remove_found, choose_default, find_one, set_address_as_default,
}
use gramoz.Addresses.Marking.{default_of}
use gramoz.Addresses.Defaults.{done, next, creates, removes, one_default}
use gramoz.Examples.Shop.{shop, db_of}

abbrev home : CreateAddressDto
home = record {
  address_line1 = "Road 7";
  city = "Dhaka";
  latitude = none;
  longitude = none;
  zone_id = some 3;
  is_default = false;
}

abbrev office : CreateAddressDto
office = record home { address_line1 = "Road 8"; is_default = true }

abbrev first : Db
first = db_of (create_address 60 1 home shop)

creates_home : create_address 60 1 home shop ≡ ok (created_address 60 1 home true, first)
unfolding create_address insert_address unset_default
creates_home = refl

abbrev second : Db
second = db_of (create_address 61 1 office first)

creates_office : create_address 61 1 office first ≡ ok (created_address 61 1 office true, second)
unfolding create_address insert_address unset_default
creates_office = refl

abbrev third : Db
third = db_of (remove_address 61 1 second)

removes_office : remove_address 61 1 second ≡ ok (tt, third)
unfolding remove_address remove_found choose_default find_one set_address_as_default create_address
    insert_address unset_default
removes_office = refl

unused : exists (λ (y : Address). 61 == y.id) first.addresses ≡ false
unfolding create_address insert_address unset_default
unused = refl

one_default_example : length (select (default_of 1) third.addresses) ≤ 1
one_default_example =
    one_default shop third 1 (record { ids = tt; single = tt })
      (next (creates 60 1 home (created_address 60 1 home true) refl creates_home) (
        next (creates 61 1 office (created_address 61 1 office true) unused creates_office)
          (next (removes 61 1 removes_office) done)))
