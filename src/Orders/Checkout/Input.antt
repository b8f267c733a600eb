-- ===== src/Orders/Checkout/Input.antt =====
-- The request of `createOrderFromCart` (server/src/modules/orders/orders.service.ts, orders/dto),
-- what the handler takes from outside the repository, and the first steps on its texts.
use gramoz.Common.{ℕ, String, Bool, Option, none, some, if◌then◌else◌, or_else, str_eq}
use gramoz.Schema.Enums.{DeliveryMethod, home}

pub record CreateOrderDto : Type 0 where
  pub address_line1 : String
  pub city : String
  pub phone : String
  pub promo_code : Option String
  pub use_points : Bool
  pub latitude : Option String
  pub longitude : Option String
  pub zone_id : Option ℕ
  pub delivery_method : Option DeliveryMethod
  pub idempotency_key : Option String

-- The fields that the request hash covers.
pub record NormalizedPayload : Type 0 where
  pub address_line1 : String
  pub city : String
  pub phone : String
  pub promo_code : Option String
  pub use_points : Bool
  pub zone_id : Option ℕ
  pub delivery_method : DeliveryMethod

-- `trim`, `toUpperCase`, SHA-256 over JSON, and `a.localeCompare(b) <= 0` on ids.
pub record Host : Type 0 where
  pub trim : String → String
  pub to_upper : String → String
  pub sha256 : NormalizedPayload → String
  pub before : ℕ → ℕ → Bool

pub record Request : Type 0 where
  pub user_id : ℕ
  pub dto : CreateOrderDto
  pub header_key : Option String
  pub now : ℕ
  pub ratio : ℕ
  pub new_order : ℕ
  pub new_address : ℕ
  pub new_key : ℕ

-- The empty text counts as absent.
abbrev pub non_empty : Option String → Option String
non_empty none = none
non_empty (some s) = if str_eq s "" then none else some s

abbrev trimmed : Host → Option String → Option String
trimmed h none = none
trimmed h (some s) = non_empty (some (h.trim s))

unfoldable pub trimmed_key : Host → Request → Option String
trimmed_key h r = elim (trimmed h r.header_key) [
  | none ↦ trimmed h r.dto.idempotency_key
  | some k ↦ some k
]

abbrev upper : Host → Option String → Option String
upper h none = none
upper h (some s) = non_empty (some (h.to_upper (h.trim s)))

unfoldable pub request_hash : Host → CreateOrderDto → String
request_hash h dto = h.sha256 (record {
  address_line1 = h.trim dto.address_line1;
  city = h.trim dto.city;
  phone = h.trim dto.phone;
  promo_code = upper h dto.promo_code;
  use_points = dto.use_points;
  zone_id = dto.zone_id;
  delivery_method = or_else dto.delivery_method home;
})
