-- ===== src/Wire.antt =====
-- Streams, and the length-prefixed frames of src/tunnel.rs and src/jump.rs.
-- A stream is seen from one end: the bytes that the other end sends before it closes, the bytes
-- written so far, and how many more bytes the connection carries before it breaks.
pub mod Words
pub mod Frame
pub mod Written
pub mod Cut
mod Tests
use sape.Prelude.{
  ℕ, zero, suc, ◌+◌, ◌-◌, ◌*◌, ◌/◌, ◌%◌, ◌≤◌, ◌<◌, ◌≡◌, refl, sym, ap, ◌∙◌, ◌≢◌, ◌↔◌, ◌⊎◌, inl, inr,
  Bool, true, false, not, ◌&&◌, ◌||◌, Option, none, some, List, [], ◌∷◌, ◌++◌, map, append-nil,
  append_assoc, arith, ltb, leb, ◌==◌, if◌then◌else◌, ==_iff, Bool-cases, Option-cases, length,
  get_elem?, take, drop, length-append, take-append, drop-append, All, All-append,
}
use sape.Prelude.Result.{Result, ok, err, map_err}
use sape.Prelude.Exec.{Exec, pure, raise, lift, ◌>>=◌, ◌>>◌}
use sape.Text.{Text}

abbrev pub Bytes : Type 0
Bytes = List ℕ

pub record Stream : Type 0 where
  pub incoming : Bytes
  pub outgoing : Bytes
  pub room : ℕ

pub data IoError : Type 0 where
  unexpected_eof broken_pipe : IoError
  -- a length prefix above the limit
  too_large : ℕ → IoError
  -- a value that postcard cannot decode or encode, with its message
  undecodable unencodable : Text → IoError
  -- a length that its prefix cannot hold
  length_overflow : IoError
  -- what `open_stream` reports
  not_opened : Text → IoError

abbrev pub Io : Type 0 → Type 0
Io A = Exec Stream IoError A

-- `AsyncReadExt::read_exact`
unfoldable pub read_exact : ℕ → Io Bytes
read_exact n s =
    if leb n (length s.incoming)
    then (ok (take n s.incoming), record s { incoming = drop n s.incoming })
    else (err unexpected_eof, record s { incoming = [] })

-- `AsyncWriteExt::write_all`
unfoldable pub write_all : Bytes → Io (Unit {0})
write_all bytes s =
    if leb (length bytes) s.room
    then (ok tt, record s { outgoing = s.outgoing ++ bytes; room = s.room - length bytes })
    else (err broken_pipe, record s { outgoing = s.outgoing ++ take s.room bytes; room = 0 })

-- What is written counts as sent.
abbrev pub flush : Io (Unit {0})
flush = pure tt

-- `u32::to_be_bytes`, `u16::to_be_bytes`
unfoldable pub u32_to_be_bytes : ℕ → Bytes
u32_to_be_bytes n = n / 16777216 % 256 ∷ n / 65536 % 256 ∷ n / 256 % 256 ∷ n % 256 ∷ []

unfoldable pub u16_to_be_bytes : ℕ → Bytes
u16_to_be_bytes n = n / 256 % 256 ∷ n % 256 ∷ []

be_value : ℕ → Bytes → ℕ
be_value n [] = n
be_value n (b ∷ bs) = be_value (n * 256 + b) bs

-- `from_be_bytes`, for either width
unfoldable pub from_be_bytes : Bytes → ℕ
unfolding be_value
from_be_bytes = be_value 0

-- postcard's functions for one type.
pub record Codec (A : Type 0) : Type 0 where
  pub to_allocvec : A → Result Text Bytes
  pub from_bytes : Bytes → Result Text A

-- `MAX_REQUEST_SIZE` and `MAX_JUMP_REQUEST_SIZE`
abbrev pub max_request_size : ℕ
max_request_size = 65536

abbrev pub u32_limit : ℕ
u32_limit = 4294967296

abbrev pub u16_limit : ℕ
u16_limit = 65536

-- `u32::try_from`, `u16::try_from`: the limit is one above the largest value.
abbrev pub try_from : ℕ → ℕ → Result IoError ℕ
try_from limit n = if ltb n limit then ok n else err length_overflow

module _ {A : Type 0} (codec : Codec A) where
  -- The text that `read_tunnel_request`, `read_jump_chain` and `read_jump_result` share.
  unfoldable pub read_frame : Io A
  read_frame = do
    len_buf ← read_exact 4
    let len = from_be_bytes len_buf
    if ltb max_request_size len
        then raise (too_large len)
        else do buf ← read_exact len; lift (map_err undecodable (codec.from_bytes buf))

  -- The text that `write_tunnel_request`, `write_jump_chain` and `write_jump_result` share.
  unfoldable pub write_frame : A → Io (Unit {0})
  write_frame a = do
    bytes ← lift (map_err unencodable (codec.to_allocvec a))
    len ← lift (try_from u32_limit (length bytes))
    write_all (u32_to_be_bytes len)
    write_all bytes
    flush
