-- ===== src/Pairing.antt =====
-- src/pairing.rs: pairing codes, a number below 100 and two words of a fixed list.
mod Words
pub mod Format
pub mod Distinct
mod Tests
use sape.Prelude.{
  ℕ, Bool, true, false, ◌&&◌, ◌||◌, Option, none, some, List, [], ◌∷◌, ◌++◌, leb, get_elem?,
}
use sape.Text.{Text, text_eq}
use sape.Text.Split.{split}
use sape.Text.Number.{parse_u8, to_string}
unfoldable pub use Words.{words}

-- `WORDS.contains(&w)`
abbrev pub contains : List Text → Text → Bool
contains [] w = false
contains (v ∷ vs) w = text_eq v w || contains vs w

-- `is_ok_and(|n| n <= 99)`
abbrev pub at_most_99 : Option ℕ → Bool
at_most_99 none = false
at_most_99 (some n) = leb n 99

-- The three draws of the generator are arguments; `none` is the panic of an index out of bounds.
unfoldable pub generate_code : ℕ → ℕ → ℕ → Option Text
generate_code number i j = elim (get_elem? words i) [
  | none ↦ none
  | some word1 ↦ elim (get_elem? words j) [
    | none ↦ none
    | some word2 ↦ some (to_string number ++ b'-' ∷ (word1 ++ b'-' ∷ word2))
  ]
]

-- Exactly three parts, the calls of `parts.next()` in order.
check_parts : List Text → Bool
check_parts [] = false
check_parts (number ∷ []) = false
check_parts (number ∷ word1 ∷ []) = false
check_parts (number ∷ word1 ∷ word2 ∷ []) =
    at_most_99 (parse_u8 number) && contains words word1 && contains words word2
check_parts (number ∷ word1 ∷ word2 ∷ more ∷ parts) = false

unfoldable pub is_pairing_code : Text → Bool
unfolding check_parts
is_pairing_code s = check_parts (split b'-' s)
