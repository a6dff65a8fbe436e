-- ===== src/Wire/Tests.antt =====
-- Frames of plain bytes, and the theorems at concrete streams.
use sape.Prelude.{◌+◌, ◌≤◌, ◌≡◌, refl, [], ◌∷◌, arith, length}
use sape.Prelude.Result.{ok, err}
use sape.Wire.{
  Bytes, Stream, unexpected_eof, too_large, read_exact, write_all, u32_to_be_bytes, from_be_bytes,
  Codec, read_frame, write_frame,
}
use sape.Wire.Frame.{read_frame-write_frame}
use sape.Wire.Cut.{read_frame-cut, read_frame_bounded}

abbrev raw : Codec Bytes
raw = record { to_allocvec = λ bytes. ok bytes; from_bytes = λ bytes. ok bytes }

abbrev fresh : Stream
fresh = record { incoming = []; outgoing = []; room = 1000 }

abbrev arrived : Bytes → Stream
arrived bytes = record { incoming = bytes; outgoing = []; room = 1000 }

wire : (write_frame raw (7 ∷ 8 ∷ []) fresh).1.outgoing ≡ 0 ∷ 0 ∷ 0 ∷ 2 ∷ 7 ∷ 8 ∷ []
unfolding write_frame write_all u32_to_be_bytes
wire = refl

refused :
    read_frame raw (arrived (0 ∷ 1 ∷ 0 ∷ 1 ∷ 9 ∷ [])) ≡ (err (too_large 65537), arrived (9 ∷ []))
unfolding read_frame read_exact from_be_bytes
refused = refl

read_frame-write_frame_example :
    ((write_frame raw (7 ∷ 8 ∷ []) fresh).0 ≡ ok tt)
    × (read_frame raw (arrived (0 ∷ 0 ∷ 0 ∷ 2 ∷ 7 ∷ 8 ∷ 5 ∷ []))
        ≡ (ok (7 ∷ 8 ∷ []), arrived (5 ∷ [])))
unfolding write_frame write_all u32_to_be_bytes
read_frame-write_frame_example =
    read_frame-write_frame raw (7 ∷ 8 ∷ []) fresh (arrived (0 ∷ 0 ∷ 0 ∷ 2 ∷ 7 ∷ 8 ∷ 5 ∷ []))
      (7 ∷ 8 ∷ []) (5 ∷ []) refl refl (omega arith) (omega arith) refl

read_frame-cut_example : (read_frame raw (arrived (0 ∷ 0 ∷ 0 ∷ 2 ∷ 7 ∷ []))).0 ≡ err unexpected_eof
unfolding u32_to_be_bytes
read_frame-cut_example =
    read_frame-cut raw (arrived (0 ∷ 0 ∷ 0 ∷ 2 ∷ 7 ∷ [])) (7 ∷ 8 ∷ []) [] 8 (omega arith) refl

read_frame_bounded_example :
    length (arrived (0 ∷ 1 ∷ [])).incoming
    ≤ length (read_frame raw (arrived (0 ∷ 1 ∷ []))).1.incoming + 65540
read_frame_bounded_example = read_frame_bounded raw (arrived (0 ∷ 1 ∷ []))
