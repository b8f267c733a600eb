-- ===== src/Payments/Signature.antt =====
-- The signature of a notification: `validateIpnSignature` of
-- server/src/modules/payments/payments.service.ts. The hashes are parameters. `split` and `trim` are
-- those of the language, where a space is one of ASCII.
use gramoz.Common.{
  ℕ, String, Bool, false, not, ◌&&◌, ◌||◌, Option, none, some, List, [], ◌∷◌, map, leb, ◌==◌,
  if◌then◌else◌, str_eq, is_some,
}
use Prim.Native.Char.{Char, code}
use Prim.Native.String.{◌++◌ as append, ◌∷◌ as letter}

-- A notification: a field that is missing or empty is `none`; `field` is `ipnData[key] ?? ''`; an
-- order id stands for its text.
pub record Ipn : Type 0 where
  pub val_id : Option String
  pub tran_id : Option String
  pub status : Option String
  pub value_a : Option ℕ
  pub bank_tran_id : Option String
  pub verify_sign : Option String
  pub verify_sign_sha2 : Option String
  pub verify_key : Option String
  pub field : String → String

abbrev add_letter : Char → List String → List String
add_letter c [] = letter c "" ∷ []
add_letter c (s ∷ ss) = letter c s ∷ ss

abbrev is_space : Char → Bool
is_space c = code c == 32 || (leb 9 (code c) && leb (code c) 13)

-- `split(',')`
unfoldable pub split_commas : String → List String
split_commas String.[] = "" ∷ []
split_commas (String.◌∷◌ c s) =
    let rest = split_commas s in if code c == 44 then "" ∷ rest else add_letter c rest

unfoldable pub trim_start : String → String
trim_start String.[] = ""
trim_start (String.◌∷◌ c s) = let rest = trim_start s in if is_space c then rest else letter c s

abbrev put_letter : Char → String → String
put_letter c String.[] = if is_space c then "" else letter c ""
put_letter c (String.◌∷◌ d s) = letter c (letter d s)

unfoldable pub trim_end : String → String
trim_end String.[] = ""
trim_end (String.◌∷◌ c s) = put_letter c (trim_end s)

-- `join('&')`
unfoldable pub join_and : List String → String
join_and [] = ""
join_and (s ∷ []) = s
join_and (s ∷ t ∷ ss) = append s (append "&" (join_and (t ∷ ss)))

unfoldable pub base_hash_string : (String → String) → (verify_key : String) → String
base_hash_string field verify_key = join_and (
    map (λ k. append k (append "=" (field k)))
      (map (λ k. trim_end (trim_start k)) (split_commas verify_key)))

module _ (sha256 md5 : String → String) (store_passwd : String) where
  unfoldable pub signed_sha2 : (base : String) → Option String → Bool
  signed_sha2 base none = false
  signed_sha2 base (some sign) =
      str_eq (sha256 (append base (append "&store_passwd=" store_passwd))) sign

  unfoldable pub signed_md5 : (base : String) → Option String → Bool
  signed_md5 base none = false
  signed_md5 base (some sign) =
      str_eq (md5 (append base (append "&store_passwd=" (md5 store_passwd)))) sign

  -- Without a signature or a key nothing is compared.
  unfoldable pub validate_ipn_signature : Ipn → Bool
  validate_ipn_signature ipn =
      if not (is_some ipn.verify_sign) && not (is_some ipn.verify_sign_sha2)
      then false
      else elim ipn.verify_key [
        | none ↦ false
        | some key ↦
            let base = base_hash_string ipn.field key in
            signed_sha2 base ipn.verify_sign_sha2 || signed_md5 base ipn.verify_sign
      ]
