-- ===== src/Text/Number.antt =====
-- `u8::from_str`, `u16::from_str` and the decimal print of an unsigned number.
pub mod RoundTrip
use sape.Prelude.{
  ℕ, zero, suc, ◌+◌, ◌-◌, ◌*◌, ◌/◌, ◌%◌, ◌≤◌, ◌<◌, ◌≡◌, refl, Bool, true, false, ◌&&◌, Option, none,
  some, List, [], ◌∷◌, ◌++◌, arith, leb, ltb, ◌==◌, if◌then◌else◌,
}
use sape.Text.{Text, codes}

abbrev pub is_digit : ℕ → Bool
is_digit c = leb b'0' c && leb c b'9'

-- The digits are read with overflow checks against the type's largest value.
pub scan : ℕ → ℕ → Text → Option ℕ
scan max n [] = some n
scan max n (c ∷ s) =
    let m = n * 10 + (c - b'0') in if is_digit c && leb m max then scan max m s else none

-- A leading `+` is accepted, also for unsigned types.
unfoldable pub parse_unsigned : ℕ → Text → Option ℕ
unfolding scan
parse_unsigned max [] = none
parse_unsigned max (c ∷ []) = if c == b'+' then none else scan max 0 (c ∷ [])
parse_unsigned max (c ∷ d ∷ s) = if c == b'+' then scan max 0 (d ∷ s) else scan max 0 (c ∷ d ∷ s)

-- `s.parse::<u8>()`, `s.parse::<u16>()`
abbrev pub parse_u8 : Text → Option ℕ
parse_u8 = parse_unsigned 255

abbrev pub parse_u16 : Text → Option ℕ
parse_u16 = parse_unsigned 65535

digits : ℕ → ℕ → Text → Text
digits zero n out = out
digits (suc f) n out = elim (ltb n 10) [
  | true ↦ (b'0' + n) ∷ out
  | false ↦ digits f (n / 10) ((b'0' + n % 10) ∷ out)
]

-- `n.to_string()`; a number has fewer digits than its successor counts.
unfoldable pub to_string : ℕ → Text
unfolding digits
to_string n = digits (suc n) n []

shown : to_string 65535 ≡ codes "65535"
unfolding to_string
shown = refl

signed : parse_u8 (codes "+42") ≡ some 42
unfolding parse_unsigned
signed = refl
