-- ===== src/Payments/Text.antt =====
-- `toUpperCase` as the payment code uses it, to compare with a text of ASCII capitals.
use gramoz.Common.{
  ℕ, ◌-◌, String, Bool, false, ◌&&◌, Option, none, some, List, [], ◌∷◌, leb, ◌==◌, if◌then◌else◌,
}
use Prim.Native.Char.{code}

abbrev upper_code : ℕ → ℕ
upper_code n = if leb 97 n && leb n 122 then n - 32 else n

abbrev pub upper_codes : String → List ℕ
upper_codes String.[] = []
upper_codes (String.◌∷◌ c s) = upper_code (code c) ∷ upper_codes s

-- `toUpperCase() === 'BDT'`
abbrev pub is_bdt : String → Bool
is_bdt s = elim (upper_codes s) [ b ∷ d ∷ t ∷ [] ↦ b == 66 && (d == 68 && t == 84) | _ ↦ false ]

-- `method?.toUpperCase() === 'COD'`
unfoldable pub is_cod_method : Option String → Bool
is_cod_method none = false
is_cod_method (some m) = elim (upper_codes m) [
  | c ∷ o ∷ d ∷ [] ↦ c == 67 && (o == 79 && d == 68)
  | _ ↦ false
]
