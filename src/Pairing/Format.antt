-- ===== src/Pairing/Format.antt =====
-- Which texts are pairing codes, and that the generator makes only such.
use sape.Prelude.{
  ℕ, ◌≤◌, ◌<◌, ◌≡◌, refl, ap, ◌↔◌, true, false, not, some, List, [], ◌∷◌, ◌++◌, arith, length,
  get_elem?, all, all_at, get_elem?-some, Option-cases, inl, inr, zero, suc, Bool-cases,
}
use sape.Text.{Text, text_eq, text_eq_iff, has_char, Lacks}
use sape.Text.Split.{split, join, join-split, split-append, split_lacking}
use sape.Text.Number.{parse_u8, to_string}
use sape.Text.Number.RoundTrip.{
  to_string-IsDigits, parse_unsigned-to_string, parse_unsigned-Lacks, Lacks-of_IsDigits,
}
use sape.Pairing.{words, contains, at_most_99, generate_code, check_parts, is_pairing_code}

-- `w` is the word at some place of the list.
abbrev pub IsWord : Text → Type 0
IsWord w = (i : ℕ) × (get_elem? words i ≡ some w)

-- A number that fits, and two words, with dashes between.
abbrev pub HasCodeForm : Text → Type 0
HasCodeForm s =
    (number : Text) × (word1 : Text) × (word2 : Text) × (s
      ≡ number ++ b'-' ∷ (word1 ++ b'-' ∷ word2))
    × ((n : ℕ) × (parse_u8 number ≡ some n) × (n ≤ 99))
    × IsWord word1
    × IsWord word2

length-words : length words ≡ 256
unfolding words
length-words = refl

words-lack_dash : all (λ w. not (has_char b'-' w)) words ≡ true
unfolding words
words-lack_dash = refl

Lacks-of_has_char : (c : ℕ) (s : Text) → has_char c s ≡ false → Lacks c s
Lacks-of_has_char c [] h = tt
Lacks-of_has_char c (d ∷ s) h = (ground arith, Lacks-of_has_char c s (ground arith))

pub word-Lacks : (i : ℕ) (w : Text) → get_elem? words i ≡ some w → Lacks b'-' w
word-Lacks i w e =
    Lacks-of_has_char b'-' w
      (ground (arith, all_at (λ w. not (has_char b'-' w)) words i w words-lack_dash e))

pub contains-get_elem? :
    (ws : List Text) (i : ℕ) (w : Text) → get_elem? ws i ≡ some w → contains ws w ≡ true
contains-get_elem? [] i w e = ground arith
contains-get_elem? (v ∷ ws) zero w e = ground (arith, text_eq_iff v w)
contains-get_elem? (v ∷ ws) (suc i) w e = ground (arith, contains-get_elem? ws i w e)

contains_sound :
    (ws : List Text) (w : Text) → contains ws w ≡ true → (i : ℕ) × (get_elem? ws i ≡ some w)
contains_sound [] w h = absurd (ground arith)
contains_sound (v ∷ ws) w h = elim (Bool-cases (text_eq v w)) [
  | inl same ↦ (0, ap some ((text_eq_iff v w).0 same))
  | inr other ↦ let (i, e) = contains_sound ws w (ground arith) in (suc i, e)
]

pub number-Lacks : (n : ℕ) → Lacks b'-' (to_string n)
number-Lacks n = Lacks-of_IsDigits b'-' (to_string n) refl (to_string-IsDigits n)

pub split-three :
    (a b c : Text)
    → Lacks b'-' a
    → Lacks b'-' b
    → Lacks b'-' c
    → split b'-' (a ++ b'-' ∷ (b ++ b'-' ∷ c)) ≡ a ∷ b ∷ c ∷ []
split-three a b c ha hb hc =
    rw (split-append b'-' a _ ha, split-append b'-' b c hb, split_lacking b'-' c hc)

check_parts_of :
    (number word1 word2 : Text) (n : ℕ)
    → parse_u8 number ≡ some n
    → n ≤ 99
    → IsWord word1
    → IsWord word2
    → check_parts (number ∷ word1 ∷ word2 ∷ []) ≡ true
unfolding check_parts
check_parts_of number word1 word2 n e h (i, w1) (j, w2) =
    rw (e, contains-get_elem? words i word1 w1, contains-get_elem? words j word2 w2) (ground arith)

is_pairing_code_of_form : (s : Text) → HasCodeForm s → is_pairing_code s ≡ true
unfolding is_pairing_code
is_pairing_code_of_form s (number, word1, word2, shape, (n, e, h), (i, w1), (j, w2)) =
    rw
      (
        shape,
        split-three number word1 word2 (parse_unsigned-Lacks 255 b'-' number n refl refl e)
            (word-Lacks i word1 w1) (word-Lacks j word2 w2),
      )
      (check_parts_of number word1 word2 n e h (i, w1) (j, w2))

check_parts_sound : (parts : List Text) → check_parts parts ≡ true → HasCodeForm (join b'-' parts)
unfolding check_parts
check_parts_sound [] h = cc
check_parts_sound (number ∷ []) h = cc
check_parts_sound (number ∷ word1 ∷ []) h = cc
check_parts_sound (number ∷ word1 ∷ word2 ∷ []) h = (
  number,
  word1,
  word2,
  refl,
  number_sound (ground arith),
  contains_sound words word1 (ground arith),
  contains_sound words word2 (ground arith),
)
  where
    number_sound :
        at_most_99 (parse_u8 number) ≡ true → (n : ℕ) × (parse_u8 number ≡ some n) × (n ≤ 99)
    number_sound k = elim (Option-cases (parse_u8 number)) [
      | inl missing ↦ cc (rw missing at k)
      | inr (n, e) ↦ (n, e, ground (arith, rw e at k))
    ]
check_parts_sound (number ∷ word1 ∷ word2 ∷ more ∷ parts) h = cc

-- A text is taken for a pairing code exactly when it is a number that `u8` reads, at most 99, and
-- two words of the list, with one dash between each two.
pub is_pairing_code_iff : (s : Text) → (is_pairing_code s ≡ true) ↔ HasCodeForm s
unfolding is_pairing_code
is_pairing_code_iff s = (
  (λ h. rw (join-split b'-' s) at (check_parts_sound (split b'-' s) h)),
  is_pairing_code_of_form s,
)

-- With a number below 100 and two places in the list, which are the ranges of the draws, the
-- generator does not index out of bounds, and its code is taken for a pairing code.
pub generate_code-IsPairingCode :
    (n i j : ℕ)
    → n < 100
    → i < 256
    → j < 256
    → (s : Text) × (generate_code n i j ≡ some s) × (is_pairing_code s ≡ true)
unfolding generate_code
generate_code-IsPairingCode n i j hn hi hj =
    let (w1, e1) = get_elem?-some words i (rw length-words hi) in
    let (w2, e2) = get_elem?-some words j (rw length-words hj) in
    let s = to_string n ++ b'-' ∷ (w1 ++ b'-' ∷ w2) in
    (
      s,
      ground (arith, e1, e2),
      is_pairing_code_of_form s (
        to_string n,
        w1,
        w2,
        refl,
        (n, parse_unsigned-to_string 255 n (omega arith), omega arith),
        (i, e1),
        (j, e2),
      ),
    )
