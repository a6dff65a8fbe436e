-- ===== src/Pairing/Distinct.antt =====
-- No two draws make the same pairing code.
use sape.Prelude.{
  ℕ, zero, suc, ◌<◌, ◌≡◌, refl, sym, ap, ◌∙◌, Bool, true, not, ◌&&◌, some, List, [], ◌∷◌, ◌++◌,
  arith, get_elem?, Option-cases, inl, inr,
}
use sape.Text.{Text}
use sape.Text.Split.{split}
use sape.Text.Number.{parse_u8, to_string}
use sape.Text.Number.RoundTrip.{parse_unsigned-to_string}
use sape.Pairing.{words, contains, generate_code}
use sape.Pairing.Format.{contains-get_elem?, split-three, word-Lacks, number-Lacks}

-- No word stands in the list a second time.
abbrev distinct : List Text → Bool
distinct [] = true
distinct (w ∷ ws) = not (contains ws w) && distinct ws

words-distinct : distinct words ≡ true
unfolding words
words-distinct = refl

distinct_at :
    (ws : List Text) (i j : ℕ) (w : Text)
    → distinct ws ≡ true
    → get_elem? ws i ≡ some w
    → get_elem? ws j ≡ some w
    → i ≡ j
distinct_at [] i j w d e f = absurd (ground arith)
distinct_at (v ∷ ws) zero zero w d e f = refl
distinct_at (v ∷ ws) zero (suc j) w d e f = absurd (ground (arith, contains-get_elem? ws j w f))
distinct_at (v ∷ ws) (suc i) zero w d e f = absurd (ground (arith, contains-get_elem? ws i w e))
distinct_at (v ∷ ws) (suc i) (suc j) w d e f = ap suc (distinct_at ws i j w (ground arith) e f)

three-injective :
    {a b c a' b' c' : Text} → a ∷ b ∷ c ∷ [] ≡ a' ∷ b' ∷ c' ∷ [] → (a ≡ a') × (b ≡ b') × (c ≡ c')
three-injective e = (cc, cc, cc)

-- A code that was made, taken apart again.
generate_code-parts :
    (n i j : ℕ) (s : Text)
    → generate_code n i j ≡ some s
    → (w1 : Text) × (w2 : Text) × (get_elem? words i ≡ some w1)
      × (get_elem? words j ≡ some w2)
      × (split b'-' s ≡ to_string n ∷ w1 ∷ w2 ∷ [])
unfolding generate_code
generate_code-parts n i j s h = elim (Option-cases (get_elem? words i)) [
  | inl missing ↦ absurd (ground arith)
  | inr (w1, e1) ↦ elim (Option-cases (get_elem? words j)) [
    | inl missing ↦ absurd (ground arith)
    | inr (w2, e2) ↦
        let shape : s ≡ to_string n ++ b'-' ∷ (w1 ++ b'-' ∷ w2) = ground arith in
        (
          w1,
          w2,
          e1,
          e2,
          rw shape (
              split-three (to_string n) w1 w2 (number-Lacks n) (word-Lacks i w1 e1)
                (word-Lacks j w2 e2)),
        )
  ]
]

-- Two draws that make the same code are the same draw, so all 100 * 256 * 256 codes are different.
pub generate_code_injective :
    (n i j n' i' j' : ℕ) (s : Text)
    → n < 100
    → n' < 100
    → generate_code n i j ≡ some s
    → generate_code n' i' j' ≡ some s
    → (n ≡ n') × (i ≡ i') × (j ≡ j')
generate_code_injective n i j n' i' j' s hn hn' h h' =
    let (w1, w2, e1, e2, parts) = generate_code-parts n i j s h in
    let (v1, v2, f1, f2, parts') = generate_code-parts n' i' j' s h' in
    let (same, same1, same2) = three-injective (sym parts ∙ parts') in
    (
      number-injective n n' hn hn' same,
      distinct_at words i i' w1 words-distinct e1 (rw same1 f1),
      distinct_at words j j' w2 words-distinct e2 (rw same2 f2),
    )
  where
    number-injective : (a b : ℕ) → a < 100 → b < 100 → to_string a ≡ to_string b → a ≡ b
    number-injective a b ha hb same =
        let read = parse_unsigned-to_string 255 a (omega arith) in
        let read' = parse_unsigned-to_string 255 b (omega arith) in
        cc (read, read', ap parse_u8 same)
