-- ===== src/Wire/Cut.antt =====
-- Frames that are cut short, and how much a reader takes.
use sape.Prelude.{
  ℕ, ◌+◌, ◌≤◌, ◌<◌, ◌≡◌, refl, ap, inl, inr, [], ◌∷◌, ◌++◌, arith, ltb, Bool-cases, length, take,
  drop, length-append, length-drop,
}
use sape.Prelude.Result.{err}
use sape.Wire.{
  Bytes, Stream, unexpected_eof, read_exact, u32_to_be_bytes, from_be_bytes, u32_limit,
  max_request_size, Codec, read_frame,
}
use sape.Wire.Words.{from_be_bytes-u32, length-u32}
use sape.Wire.Frame.{framed, read_exact-append}

pub read_exact-short :
    (s : Stream) (n : ℕ)
    → length s.incoming < n
    → read_exact n s ≡ (err unexpected_eof, record s { incoming = [] })
unfolding read_exact
read_exact-short s n h = ground arith

-- A list that is at least as long as a front part of the same whole contains that part.
prefix_of_longer :
    (front back cut rest : Bytes)
    → front ++ back ≡ cut ++ rest
    → length front ≤ length cut
    → (mid : Bytes) × (cut ≡ front ++ mid) × (back ≡ mid ++ rest)
prefix_of_longer [] back cut rest e h = (cut, refl, e)
prefix_of_longer (x ∷ front) back [] rest e h = absurd (omega arith)
prefix_of_longer (x ∷ front) back (y ∷ cut) rest e h =
    let (mid, same, tail) = prefix_of_longer front back cut rest (cc) (omega arith) in
    let first : x ≡ y = cc in (mid, rw (first, same), tail)

module _ {A : Type 0} (codec : Codec A) where
  body_short :
      (s : Stream) (mid : Bytes) (n : ℕ)
      → n < u32_limit
      → n ≤ max_request_size
      → length mid < n
      → s.incoming ≡ u32_to_be_bytes n ++ mid
      → (read_frame codec s).0 ≡ err unexpected_eof
  unfolding read_frame
  body_short s mid n small fits short e =
      rw (read_exact-append s (u32_to_be_bytes n) mid 4 e (length-u32 n), from_be_bytes-u32 n small)
        (ground (arith, read_exact-short (record s { incoming = mid }) n short))

  head_short : (s : Stream) → length s.incoming < 4 → (read_frame codec s).0 ≡ err unexpected_eof
  unfolding read_frame
  head_short s h = rw (read_exact-short s 4 h)

  -- If the other end closes before the whole of a frame within the limit has arrived, the reader
  -- reports the end of the stream, wherever the cut is: it never makes a value of a part.
  pub read_frame-cut :
      (s : Stream) (bytes cut : Bytes) (b : ℕ)
      → length bytes ≤ max_request_size
      → framed bytes ≡ s.incoming ++ b ∷ cut
      → (read_frame codec s).0 ≡ err unexpected_eof
  read_frame-cut s bytes cut b fits e = elim (Bool-cases (ltb (length s.incoming) 4)) [
    | inl short ↦ head_short s (ground arith)
    | inr long ↦
        let prefix = u32_to_be_bytes (length bytes) in
        let (mid, same, tail) =
          prefix_of_longer prefix bytes s.incoming (b ∷ cut) e
            (ground (arith, length-u32 (length bytes))) in
        body_short s mid (length bytes) (omega arith) fits
          (omega (arith, ap (λ (l : Bytes). length l) tail, length-append mid (b ∷ cut))) same
  ]

  -- Whatever arrives, one frame's reader takes at most 65540 bytes of it, unless the stream ends
  -- within the frame; and then too no more had arrived.
  pub read_frame_bounded :
      (s : Stream) → length s.incoming ≤ length (read_frame codec s).1.incoming + 65540
  unfolding read_frame read_exact
  read_frame_bounded s = ground (
    arith,
    length-drop 4 s.incoming,
    length-drop (from_be_bytes (take 4 s.incoming)) (drop 4 s.incoming),
  )
