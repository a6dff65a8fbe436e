-- ===== src/Text/Utf8.antt =====
-- `String::from_utf8`, and `str::split_whitespace`.
use sape.Prelude.{
  ℕ, ◌+◌, ◌-◌, ◌*◌, ◌≡◌, refl, Bool, true, false, ◌&&◌, Option, none, some, List, [], ◌∷◌, ltb, leb,
  ◌==◌, if◌then◌else◌,
}
use sape.Text.{Text, codes, is_whitespace}

-- How many bytes of a character are to come, its value so far, and the range of the next byte.
pub record Pending : Type 0 where
  pub more : ℕ
  pub value : ℕ
  pub low : ℕ
  pub high : ℕ

abbrev between : ℕ → ℕ → ℕ → Bool
between low high b = leb low b && leb b high

-- The first byte of a character that has more than one.
abbrev lead : ℕ → Option Pending
lead b =
    if between 0xc2 0xdf b
    then some (record { more = 0; value = b - 0xc0; low = 0x80; high = 0xbf })
    else if b == 0xe0
    then some (record { more = 1; value = 0; low = 0xa0; high = 0xbf })
    else if b == 0xed
    then some (record { more = 1; value = 0xd; low = 0x80; high = 0x9f })
    else if between 0xe1 0xef b
    then some (record { more = 1; value = b - 0xe0; low = 0x80; high = 0xbf })
    else if b == 0xf0
    then some (record { more = 2; value = 0; low = 0x90; high = 0xbf })
    else if between 0xf1 0xf3 b
    then some (record { more = 2; value = b - 0xf0; low = 0x80; high = 0xbf })
    else if b == 0xf4
    then some (record { more = 2; value = 4; low = 0x80; high = 0x8f })
    else none

abbrev emit : ℕ → Option Text → Option Text
emit c none = none
emit c (some s) = some (c ∷ s)

pub decode : Option Pending → List ℕ → Option Text
decode none [] = some []
decode (some p) [] = none
decode none (b ∷ bytes) = elim (ltb b 0x80) [
  | true ↦ emit b (decode none bytes)
  | false ↦ elim (lead b) [ none ↦ none | some p ↦ decode (some p) bytes ]
]
decode (some p) (b ∷ bytes) =
    let value = p.value * 64 + (b - 0x80) in
    elim (between p.low p.high b) [
      | true ↦ elim (p.more == 0) [
        | true ↦ emit value (decode none bytes)
        | false ↦
            decode (some (record { more = p.more - 1; value = value; low = 0x80; high = 0xbf }))
              bytes
      ]
      | false ↦ none
    ]

unfoldable pub from_utf8 : List ℕ → Option Text
unfolding decode
from_utf8 = decode none

-- The character is put before the text's first word, if the text starts with one.
abbrev joined : ℕ → Text → List Text → List Text
joined c [] words = (c ∷ []) ∷ words
joined c (d ∷ s) [] = (c ∷ []) ∷ []
joined c (d ∷ s) (w ∷ ws) = if is_whitespace d then (c ∷ []) ∷ w ∷ ws else (c ∷ w) ∷ ws

unfoldable pub split_whitespace : Text → List Text
split_whitespace [] = []
split_whitespace (c ∷ s) =
    let words = split_whitespace s in if is_whitespace c then words else joined c s words

pub from_utf8_nil : from_utf8 [] ≡ some []
unfolding from_utf8
from_utf8_nil = refl

accented :
    from_utf8 (b'a' ∷ 0xc3 ∷ 0xa9 ∷ 0xe2 ∷ 0x82 ∷ 0xac ∷ 0xf0 ∷ 0x9f ∷ 0x98 ∷ 0x80 ∷ [])
    ≡ some (b'a' ∷ 0xe9 ∷ 0x20ac ∷ 0x1f600 ∷ [])
unfolding from_utf8
accented = refl

overlong : from_utf8 (0xc0 ∷ 0x80 ∷ []) ≡ none
unfolding from_utf8
overlong = refl

request_words :
    split_whitespace (codes " CONNECT  example.com:443 HTTP/1.1\r\n")
    ≡ codes "CONNECT" ∷ codes "example.com:443" ∷ codes "HTTP/1.1" ∷ []
unfolding split_whitespace
request_words = refl
