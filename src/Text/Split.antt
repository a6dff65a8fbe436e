-- ===== src/Text/Split.antt =====
-- `str::split` and `str::split_once` at a character, and their round trips with joining.
use sape.Prelude.{
  ℕ, ◌≡◌, refl, ap, Bool, true, false, Option, none, some, List, [], ◌∷◌, ◌++◌, arith, ◌==◌,
  if◌then◌else◌, Bool-cases, Option-cases, inl, inr, All,
}
use sape.Text.{Text, Lacks}

-- What the character `c` adds to the parts of the text behind it.
abbrev extend : Bool → ℕ → List Text → List Text
extend true c ps = [] ∷ ps
extend false c [] = (c ∷ []) ∷ []
extend false c (p ∷ ps) = (c ∷ p) ∷ ps

-- `s.split(sep)`
unfoldable pub split : ℕ → Text → List Text
split sep [] = [] ∷ []
split sep (c ∷ s) = extend (c == sep) c (split sep s)

-- `s.split_once(sep)`
unfoldable pub split_once : ℕ → Text → Option (Text × Text)
split_once sep [] = none
split_once sep (c ∷ s) =
    if c == sep
    then some ([], s)
    else elim (split_once sep s) [ none ↦ none | some (a, b) ↦ some (c ∷ a, b) ]

-- The parts with the separator between them.
abbrev pub join : ℕ → List Text → Text
join sep [] = []
join sep (p ∷ []) = p
join sep (p ∷ q ∷ ps) = p ++ sep ∷ join sep (q ∷ ps)

join-extend : (sep c : ℕ) (ps : List Text) → join sep (extend false c ps) ≡ c ∷ join sep ps
join-extend sep c [] = refl
join-extend sep c (p ∷ []) = refl
join-extend sep c (p ∷ q ∷ ps) = refl

split-ne-nil : (sep : ℕ) (s : Text) → (p : Text) × (ps : List Text) × (split sep s ≡ p ∷ ps)
unfolding split
split-ne-nil sep [] = ([], [], refl)
split-ne-nil sep (c ∷ s) = first (c == sep) (split sep s)
  where
    first : (b : Bool) (qs : List Text) → (p : Text) × (ps : List Text) × (extend b c qs ≡ p ∷ ps)
    first true qs = ([], qs, refl)
    first false [] = (c ∷ [], [], refl)
    first false (q ∷ qs) = (c ∷ q, qs, refl)

pub join-split : (sep : ℕ) (s : Text) → join sep (split sep s) ≡ s
unfolding split
join-split sep [] = refl
join-split sep (c ∷ s) =
    let (p, ps, e) = split-ne-nil sep s in
    elim (Bool-cases (c == sep)) [
      | inl same ↦ rw (same, e) (ground (arith, rw e at (join-split sep s)))
      | inr other ↦ rw other (rw join-extend (ap (λ t. c ∷ t) (join-split sep s)))
    ]

-- A first part that lacks the separator comes out whole.
pub split-append : (sep : ℕ) (p s : Text) → Lacks sep p → split sep (p ++ sep ∷ s) ≡ p ∷ split sep s
unfolding split
split-append sep [] s h = ground arith
split-append sep (c ∷ p) s (hc, hp) = rw (hc, split-append sep p s hp)

pub split_lacking : (sep : ℕ) (p : Text) → Lacks sep p → split sep p ≡ p ∷ []
unfolding split
split_lacking sep [] h = refl
split_lacking sep (c ∷ p) (hc, hp) = rw (hc, split_lacking sep p hp)

extend-Lacks :
    (sep c : ℕ) (b : Bool) (ps : List Text)
    → (c == sep) ≡ b
    → All (Lacks sep) ps
    → All (Lacks sep) (extend b c ps)
extend-Lacks sep c true ps e h = (tt, h)
extend-Lacks sep c false [] e h = ((e, tt), tt)
extend-Lacks sep c false (p ∷ ps) e (hp, h) = ((e, hp), h)

-- No part holds the separator.
pub split-Lacks : (sep : ℕ) (s : Text) → All (Lacks sep) (split sep s)
unfolding split
split-Lacks sep [] = (tt, tt)
split-Lacks sep (c ∷ s) = extend-Lacks sep c (c == sep) (split sep s) refl (split-Lacks sep s)

pub split_once-append :
    (sep : ℕ) (p s : Text) → Lacks sep p → split_once sep (p ++ sep ∷ s) ≡ some (p, s)
unfolding split_once
split_once-append sep [] s h = ground arith
split_once-append sep (c ∷ p) s (hc, hp) = rw (hc, split_once-append sep p s hp)

-- What is split can be joined, and the first part lacks the separator.
pub split_once_sound :
    (sep : ℕ) (s a b : Text) → split_once sep s ≡ some (a, b) → (s ≡ a ++ sep ∷ b) × Lacks sep a
unfolding split_once
split_once_sound sep [] a b h = ground arith
split_once_sound sep (c ∷ s) a b h = elim (Option-cases (split_once sep s)) [
  | inl missing ↦ ground arith
  | inr (found, e) ↦ ground (arith, split_once_sound sep s found.0 found.1)
]
