-- ===== src/Proxy/Reader.antt =====
-- Lines, read from a connection whose bytes arrive in pieces.
use sape.Prelude.{
  ℕ, zero, suc, ◌+◌, ◌≡◌, refl, sym, ap, ◌∙◌, ◌≢◌, true, false, some, List, [], ◌∷◌, ◌++◌,
  append-nil, arith, ◌==◌, length, drop, length-append, drop-append, All,
}
use sape.Prelude.Result.{ok}
use sape.Text.{Text, Lacks}
use sape.Text.Utf8.{from_utf8}
use sape.Wire.{Bytes}
use sape.Proxy.{Client, Unread, read_until, runs_out, read_line, total}

-- All that is still to be read.
abbrev pub concat : List Bytes → Bytes
concat [] = []
concat (chunk ∷ reads) = chunk ++ concat reads

abbrev pub NoneEmpty : List Bytes → Type 0
NoneEmpty = All (λ chunk. chunk ≢ [])

-- What is left after so many bytes were taken one by one. The buffer is used up before a new read.
pub skip : ℕ → List Bytes → Bytes → Unread
skip zero reads buffer = (buffer, reads)
skip (suc n) reads (c ∷ buffer) = skip n reads buffer
skip (suc n) [] [] = ([], [])
skip (suc n) ([] ∷ reads) [] = skip (suc n) reads []
skip (suc n) ((c ∷ chunk) ∷ reads) [] = skip n reads chunk

head_eq : {c d : ℕ} {xs ys : Bytes} → ◌≡◌ {A = Bytes} (c ∷ xs) (d ∷ ys) → c ≡ d
head_eq h = cc

pub tail_eq : {c d : ℕ} {xs ys : Bytes} → ◌≡◌ {A = Bytes} (c ∷ xs) (d ∷ ys) → xs ≡ ys
tail_eq h = cc

newline_found : (c : ℕ) → c ≡ b'\n' → (c == b'\n') ≡ true
newline_found c h = ground arith

newline_differs : (c d : ℕ) → c ≡ d → (d == b'\n') ≡ false → (c == b'\n') ≡ false
newline_differs c d h l = rw h l

nothing_left : (line rest : Bytes) → ◌≡◌ {A = Bytes} [] (line ++ b'\n' ∷ rest) → ⊥
nothing_left [] rest e = cc
nothing_left (d ∷ line) rest e = cc

-- A line is read whole however it is cut into reads, and nothing behind it is used.
pub read_until-line :
    (reads : List Bytes) (buffer line rest : Bytes)
    → NoneEmpty reads
    → Lacks b'\n' line
    → buffer ++ concat reads ≡ line ++ b'\n' ∷ rest
    → read_until reads buffer ≡ (line ++ b'\n' ∷ [], skip (suc (length line)) reads buffer)
unfolding read_until skip
read_until-line reads (c ∷ buffer) [] rest full lacks e =
    rw (newline_found c (head_eq e), read_until) (rw (head_eq e))
read_until-line reads (c ∷ buffer) (d ∷ line) rest full lacks e =
    rw (newline_differs c d (head_eq e) lacks.0, read_until)
      (rw (read_until-line reads buffer line rest full lacks.1 (tail_eq e)) (rw (head_eq e)))
read_until-line [] [] line rest full lacks e = absurd (nothing_left line rest e)
read_until-line ([] ∷ reads) [] line rest full lacks e = absurd (full.0 refl)
read_until-line ((c ∷ chunk) ∷ reads) [] [] rest full lacks e =
    rw (newline_found c (head_eq e), read_until) (rw (head_eq e))
read_until-line ((c ∷ chunk) ∷ reads) [] (d ∷ line) rest full lacks e =
    rw (newline_differs c d (head_eq e) lacks.0, read_until)
      (rw (read_until-line reads chunk line rest full.1 lacks.1 (tail_eq e)) (rw (head_eq e)))

-- It does not run out.
runs_out-line :
    (reads : List Bytes) (buffer line rest : Bytes)
    → NoneEmpty reads
    → Lacks b'\n' line
    → buffer ++ concat reads ≡ line ++ b'\n' ∷ rest
    → runs_out reads buffer ≡ false
unfolding runs_out
runs_out-line reads (c ∷ buffer) [] rest full lacks e =
    rw (newline_found c (head_eq e), runs_out) refl
runs_out-line reads (c ∷ buffer) (d ∷ line) rest full lacks e =
    rw (newline_differs c d (head_eq e) lacks.0, runs_out)
      (runs_out-line reads buffer line rest full lacks.1 (tail_eq e))
runs_out-line [] [] line rest full lacks e = absurd (nothing_left line rest e)
runs_out-line ([] ∷ reads) [] line rest full lacks e = absurd (full.0 refl)
runs_out-line ((c ∷ chunk) ∷ reads) [] [] rest full lacks e =
    rw (newline_found c (head_eq e), runs_out) refl
runs_out-line ((c ∷ chunk) ∷ reads) [] (d ∷ line) rest full lacks e =
    rw (newline_differs c d (head_eq e) lacks.0, runs_out)
      (runs_out-line reads chunk line rest full.1 lacks.1 (tail_eq e))

skip-end : (n : ℕ) → skip n [] [] ≡ ([], [])
unfolding skip
skip-end zero = refl
skip-end (suc n) = refl

pub skip-add :
    (m n : ℕ) (reads : List Bytes) (buffer : Bytes)
    → skip (m + n) reads buffer ≡ skip n (skip m reads buffer).1 (skip m reads buffer).0
unfolding skip
skip-add zero n reads buffer = let same : 0 + n ≡ n = omega arith in rw same
skip-add (suc m) n reads (c ∷ buffer) =
    let same : suc m + n ≡ suc (m + n) = omega arith in rw same (skip-add m n reads buffer)
skip-add (suc m) n [] [] = let same : suc m + n ≡ suc (m + n) = omega arith in rw (same, skip-end n)
skip-add (suc m) n ([] ∷ reads) [] =
    let same : suc m + n ≡ suc (m + n) = omega arith in
    rw same (sym (rw same at (sym (skip-add (suc m) n reads []))))
skip-add (suc m) n ((c ∷ chunk) ∷ reads) [] =
    let same : suc m + n ≡ suc (m + n) = omega arith in rw same (skip-add m n reads chunk)

pub length-concat : (reads : List Bytes) → length (concat reads) ≡ total reads
length-concat [] = refl
length-concat (chunk ∷ reads) =
    omega (arith, length-append chunk (concat reads), length-concat reads)

skip_buffer : (xs ys : Bytes) (reads : List Bytes) → skip (length xs) reads (xs ++ ys) ≡ (ys, reads)
unfolding skip
skip_buffer [] ys reads = refl
skip_buffer (c ∷ xs) ys reads = skip_buffer xs ys reads

skip_reads :
    (rs : List Bytes) (x y : Bytes) (after : List Bytes)
    → NoneEmpty rs
    → x ≢ []
    → skip (total rs + length x) (rs ++ (x ++ y) ∷ after) [] ≡ (y, after)
unfolding skip
skip_reads [] [] y after full there = absurd (there refl)
skip_reads [] (c ∷ x) y after full there =
    let same : 0 + suc (length x) ≡ suc (length x) = omega arith in rw same (skip_buffer x y after)
skip_reads ([] ∷ rs) x y after full there = absurd (full.0 refl)
skip_reads ((c ∷ chunk) ∷ rs) x y after full there =
    let tail = rs ++ (x ++ y) ∷ after in
    let split = skip-add (suc (length chunk)) (total rs + length x) ((c ∷ chunk) ∷ tail) [] in
    let used : skip (length chunk) tail chunk ≡ ([], tail) =
      rw append-nil at (skip_buffer chunk [] tail) in
    let sum : total ((c ∷ chunk) ∷ rs) + length x ≡ suc (length chunk) + (total rs + length x) =
      omega arith in
    rw sum (split ∙ rw used (skip_reads rs x y after full.1 there))

-- The read in which the head ends is the last that is used; what it brought behind the head is held
-- by the reader.
pub skip-head :
    (rs : List Bytes) (x y head : Bytes) (after : List Bytes)
    → NoneEmpty rs
    → x ≢ []
    → concat rs ++ x ≡ head
    → skip (length head) (rs ++ (x ++ y) ∷ after) [] ≡ (y, after)
skip-head rs x y head after full there e =
    let count : length head ≡ total rs + length x =
      ap length (sym e) ∙ length-append (concat rs) x ∙ ap (λ n. n + length x) (length-concat rs) in
    rw count (skip_reads rs x y after full there)

-- The reader after so many bytes.
abbrev pub advanced : ℕ → Client → Client
advanced n c = record c {
  buffer = (skip n c.reads c.buffer).0;
  reads = (skip n c.reads c.buffer).1;
}

pub advanced-add : (m n : ℕ) (c : Client) → advanced (m + n) c ≡ advanced n (advanced m c)
advanced-add m n c = rw (skip-add m n c.reads c.buffer)

skip-flat :
    (n : ℕ) (reads : List Bytes) (buffer : Bytes)
    → (skip n reads buffer).0 ++ concat (skip n reads buffer).1 ≡ drop n (buffer ++ concat reads)
unfolding skip
skip-flat zero reads buffer = refl
skip-flat (suc n) reads (c ∷ buffer) = skip-flat n reads buffer
skip-flat (suc n) [] [] = refl
skip-flat (suc n) ([] ∷ reads) [] = skip-flat (suc n) reads []
skip-flat (suc n) ((c ∷ chunk) ∷ reads) [] = skip-flat n reads chunk

skip-NoneEmpty :
    (n : ℕ) (reads : List Bytes) (buffer : Bytes)
    → NoneEmpty reads
    → NoneEmpty (skip n reads buffer).1
unfolding skip
skip-NoneEmpty zero reads buffer full = full
skip-NoneEmpty (suc n) reads (c ∷ buffer) full = skip-NoneEmpty n reads buffer full
skip-NoneEmpty (suc n) [] [] full = tt
skip-NoneEmpty (suc n) ([] ∷ reads) [] full = skip-NoneEmpty (suc n) reads [] full.1
skip-NoneEmpty (suc n) ((c ∷ chunk) ∷ reads) [] full = skip-NoneEmpty n reads chunk full.1

-- What the connection still brings, and that no read of it gives nothing.
pub record IsUnread (c : Client) (bytes : Bytes) : Type 0 where
  pub flat : c.buffer ++ concat c.reads ≡ bytes
  pub full : NoneEmpty c.reads

pub advanced-IsUnread :
    (c : Client) (taken rest : Bytes)
    → IsUnread c (taken ++ rest)
    → IsUnread (advanced (length taken) c) rest
advanced-IsUnread c taken rest u = record {
  flat =
      skip-flat (length taken) c.reads c.buffer
      ∙ ap (drop (length taken)) u.flat
      ∙ drop-append taken rest;
  full = skip-NoneEmpty (length taken) c.reads c.buffer u.full;
}

pub read_line-line :
    (c : Client) (line rest : Bytes) (text : Text)
    → IsUnread c (line ++ b'\n' ∷ rest)
    → Lacks b'\n' line
    → from_utf8 (line ++ b'\n' ∷ []) ≡ some text
    → read_line c ≡ (ok text, advanced (suc (length line)) c)
unfolding read_line
read_line-line c line rest text u lacks e = rw (
  runs_out-line c.reads c.buffer line rest u.full lacks u.flat,
  read_until-line c.reads c.buffer line rest u.full lacks u.flat,
  e,
)
