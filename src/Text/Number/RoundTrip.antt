-- ===== src/Text/Number/RoundTrip.antt =====
-- A printed number is read back, and its print is digits only.
use sape.Prelude.{
  ℕ, zero, suc, ◌+◌, ◌*◌, ◌/◌, ◌%◌, ◌≤◌, ◌<◌, ◌-◌, ◌≡◌, true, false, ◌||◌, some, [], ◌∷◌, arith,
  ltb, ◌==◌, Bool-cases, inl, inr, All,
}
use sape.Text.{Text, Lacks}
use sape.Text.Number.{is_digit, scan, parse_unsigned, digits, to_string}

abbrev pub IsDigits : Text → Type 0
IsDigits = All (λ c. is_digit c ≡ true)

scan-last :
    (max n : ℕ) (out : Text) → n ≤ max → scan max (n / 10) ((b'0' + n % 10) ∷ out) ≡ scan max n out
unfolding scan
scan-last max n out h = ground arith

scan-first :
    (max n : ℕ) (out : Text) → n ≤ max → n < 10 → scan max 0 ((b'0' + n) ∷ out) ≡ scan max n out
unfolding scan
scan-first max n out h small = ground arith

scan-digits :
    (max f n : ℕ) (out : Text) → n < f → n ≤ max → scan max 0 (digits f n out) ≡ scan max n out
unfolding digits
scan-digits max zero n out h fits = absurd (omega arith)
scan-digits max (suc f) n out h fits = elim (Bool-cases (ltb n 10)) [
  | inl small ↦ rw (small, digits) (scan-first max n out fits (ground arith))
  | inr big ↦
      rw (big, digits)
        (rw (scan-digits max f (n / 10) ((b'0' + n % 10) ∷ out) (ground arith) (omega arith))
          (scan-last max n out fits))
]

digits-IsDigits : (f n : ℕ) (out : Text) → n < f → IsDigits out → IsDigits (digits f n out)
unfolding digits
digits-IsDigits zero n out h ds = absurd (omega arith)
digits-IsDigits (suc f) n out h ds = elim (Bool-cases (ltb n 10)) [
  | inl small ↦ rw (small, digits) (ground arith, ds)
  | inr big ↦
      rw (big, digits)
        (digits-IsDigits f (n / 10) ((b'0' + n % 10) ∷ out) (ground arith) (ground arith, ds))
]

digits-ne-nil : (f n : ℕ) (out : Text) → n < f → (c : ℕ) × (s : Text) × (digits f n out ≡ c ∷ s)
unfolding digits
digits-ne-nil zero n out h = absurd (omega arith)
digits-ne-nil (suc f) n out h = elim (Bool-cases (ltb n 10)) [
  | inl small ↦ (b'0' + n, out, rw (small, digits))
  | inr big ↦
      let (c, s, e) = digits-ne-nil f (n / 10) ((b'0' + n % 10) ∷ out) (ground arith) in
      (c, s, rw (big, digits) e)
]

-- A print has digits only.
pub to_string-IsDigits : (n : ℕ) → IsDigits (to_string n)
unfolding to_string
to_string-IsDigits n = digits-IsDigits (suc n) n [] (omega arith) tt

-- A text of digits is scanned from its first character, whatever sign the reader would accept.
parse_unsigned-scan :
    (max c : ℕ) (s : Text) → is_digit c ≡ true → parse_unsigned max (c ∷ s) ≡ scan max 0 (c ∷ s)
unfolding parse_unsigned
parse_unsigned-scan max c [] h = ground arith
parse_unsigned-scan max c (d ∷ s) h = ground arith

-- What is printed is read back, by every type that holds the number.
pub parse_unsigned-to_string : (max n : ℕ) → n ≤ max → parse_unsigned max (to_string n) ≡ some n
unfolding to_string scan
parse_unsigned-to_string max n h =
    let (c, s, e) = digits-ne-nil (suc n) n [] (omega arith) in
    let all_digits : IsDigits (c ∷ s) = rw e at (digits-IsDigits (suc n) n [] (omega arith) tt) in
    let scanned = scan-digits max (suc n) n [] (omega arith) h in
    rw (e, parse_unsigned-scan max c s all_digits.0) (rw e at scanned)

-- What is read is at most the type's largest value.
scan-le : (max n : ℕ) (s : Text) (r : ℕ) → n ≤ max → scan max n s ≡ some r → r ≤ max
unfolding scan
scan-le max n [] r h e = ground arith
scan-le max n (c ∷ s) r h e = ground (arith, scan-le max (n * 10 + (c - b'0')) s r)

pub parse_unsigned-le : (max : ℕ) (s : Text) (r : ℕ) → parse_unsigned max s ≡ some r → r ≤ max
unfolding parse_unsigned
parse_unsigned-le max [] r h = ground arith
parse_unsigned-le max (c ∷ []) r h = ground (arith, scan-le max 0 (c ∷ []) r)
parse_unsigned-le max (c ∷ d ∷ s) r h =
    ground (arith, scan-le max 0 (c ∷ d ∷ s) r, scan-le max 0 (d ∷ s) r)

pub Lacks-of_IsDigits : (b : ℕ) (s : Text) → is_digit b ≡ false → IsDigits s → Lacks b s
Lacks-of_IsDigits b [] h ds = tt
Lacks-of_IsDigits b (c ∷ s) h (d, ds) = (ground arith, Lacks-of_IsDigits b s h ds)

-- A number that is read starts with a digit or a sign.
scan_head : (max c r : ℕ) (s : Text) → scan max 0 (c ∷ s) ≡ some r → is_digit c ≡ true
unfolding scan
scan_head max c r s h = ground arith

pub parse_unsigned_head :
    (max c r : ℕ) (s : Text)
    → parse_unsigned max (c ∷ s) ≡ some r
    → (is_digit c || c == b'+') ≡ true
unfolding parse_unsigned
parse_unsigned_head max c r [] h = ground (arith, scan_head max c r [])
parse_unsigned_head max c r (d ∷ s) h = ground (arith, scan_head max c r (d ∷ s))

scan-IsDigits : (max n : ℕ) (s : Text) (r : ℕ) → scan max n s ≡ some r → IsDigits s
unfolding scan
scan-IsDigits max n [] r h = tt
scan-IsDigits max n (c ∷ s) r h =
    (ground arith, scan-IsDigits max (n * 10 + (c - b'0')) s r (ground arith))

-- A number that is read holds only digits, behind a sign.
pub parse_unsigned-Lacks :
    (max b : ℕ) (s : Text) (r : ℕ)
    → is_digit b ≡ false
    → (b == b'+') ≡ false
    → parse_unsigned max s ≡ some r
    → Lacks b s
unfolding parse_unsigned
parse_unsigned-Lacks max b [] r nd ns h = tt
parse_unsigned-Lacks max b (c ∷ []) r nd ns h =
    Lacks-of_IsDigits b (c ∷ []) nd (scan-IsDigits max 0 (c ∷ []) r (ground arith))
parse_unsigned-Lacks max b (c ∷ d ∷ s) r nd ns h = elim (Bool-cases (c == b'+')) [
  | inl sign ↦
      (ground arith, Lacks-of_IsDigits b (d ∷ s) nd (scan-IsDigits max 0 (d ∷ s) r (ground arith)))
  | inr none_there ↦
      Lacks-of_IsDigits b (c ∷ d ∷ s) nd (scan-IsDigits max 0 (c ∷ d ∷ s) r (ground arith))
]
