-- ===== src/Proxy/Http.antt =====
-- HTTP CONNECT at a local proxy, from the client's bytes to the tunnel.
use sape.Prelude.{◌≡◌, refl, ◌≢◌, Bool, true, false, some, List, [], ◌∷◌, ◌++◌, append_assoc, All}
use sape.Prelude.Result.{Result}
use sape.Text.{codes, Text, Lacks, is_empty, trim}
use sape.Text.Utf8.{from_utf8, split_whitespace}
use sape.Wire.{Bytes}
use sape.Proxy.Reader.{concat}

abbrev pub lines : List Bytes → Bytes
lines [] = []
lines (l ∷ ls) = l ++ b'\n' ∷ lines ls

-- A line's text, without line feed within the line.
abbrev pub IsLine : Bytes → Text → Type 0
IsLine l text = Lacks b'\n' l × (from_utf8 (l ++ b'\n' ∷ []) ≡ some text)

-- A line that is, or is not, all white space.
abbrev pub IsBlank : Bool → Bytes → Type 0
IsBlank blank l = (text : Text) × (IsLine l text × (is_empty (trim text) ≡ blank))

lines-append : (xs ys : List Bytes) → lines (xs ++ ys) ≡ lines xs ++ lines ys
lines-append [] ys = refl
lines-append (x ∷ xs) ys = simp (lines-append xs ys, append_assoc)

-- The head of a request: a line whose words are the method CONNECT, the target, the version and
-- perhaps more; lines that are not blank; and a blank line.
pub record IsHead (head : Bytes) (target : Text) : Type 0 where
  pub first : Bytes
  pub headers : List Bytes
  pub blank : Bytes
  pub text : Text
  pub version : Text
  pub more : List Text
  pub first_line : IsLine first text
  pub asks : split_whitespace text ≡ codes "CONNECT" ∷ target ∷ version ∷ more
  pub not_blank : All (IsBlank false) headers
  pub ends : IsBlank true blank
  pub spelled : head ≡ first ++ b'\n' ∷ (lines headers ++ (blank ++ b'\n' ∷ []))

-- The reads bring the head and what follows: `early` in the read that brings the head's last byte,
-- and then the other reads.
pub record IsCut (reads : List Bytes) (head early : Bytes) (after : List Bytes) : Type 0 where
  pub before : List Bytes
  pub last : Bytes
  pub is_last : last ≢ []
  pub whole : concat before ++ last ≡ head
  pub cut : reads ≡ before ++ (last ++ early) ∷ after
