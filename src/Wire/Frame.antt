-- ===== src/Wire/Frame.antt =====
-- What a frame's writer sends, and what its reader makes of it.
use sape.Prelude.{
  ℕ, ◌+◌, ◌-◌, ◌≤◌, ◌<◌, ◌≡◌, refl, ◌∙◌, ◌++◌, append_assoc, arith, ltb, if◌then◌else◌, length,
  drop, length-append, take-append, drop-append,
}
use sape.Prelude.Result.{ok, err, map_err}
use sape.Wire.{
  Bytes, Stream, too_large, undecodable, read_exact, write_all, u32_to_be_bytes, u32_limit,
  max_request_size, Codec, read_frame, write_frame,
}
use sape.Wire.Words.{from_be_bytes-u32, length-u32}

-- `bytes` behind their length.
abbrev pub framed : Bytes → Bytes
framed bytes = u32_to_be_bytes (length bytes) ++ bytes

pub read_exact-append :
    (s : Stream) (front rest : Bytes) (n : ℕ)
    → s.incoming ≡ front ++ rest
    → length front ≡ n
    → read_exact n s ≡ (ok front, record s { incoming = rest })
unfolding read_exact
read_exact-append s front rest n e h =
    ground (arith, length-append front rest, take-append front rest, drop-append front rest)

pub write_all-ok :
    (s : Stream) (bytes : Bytes)
    → length bytes ≤ s.room
    → write_all bytes s
      ≡ (ok tt, record s { outgoing = s.outgoing ++ bytes; room = s.room - length bytes })
unfolding write_all
write_all-ok s bytes h = ground arith

module _ {A : Type 0} (codec : Codec A) where
  pub write_frame-ok :
      (a : A) (s : Stream) (bytes : Bytes)
      → codec.to_allocvec a ≡ ok bytes
      → length bytes < u32_limit
      → length bytes + 4 ≤ s.room
      → write_frame codec a s ≡ (
        ok tt,
        record s { outgoing = s.outgoing ++ framed bytes; room = s.room - (length bytes + 4) },
      )
  unfolding write_frame
  write_frame-ok a s bytes encoded small fits = ground (
    arith,
    write_all-ok s (u32_to_be_bytes (length bytes)),
    write_all-ok
        (record s {
          outgoing = s.outgoing ++ u32_to_be_bytes (length bytes);
          room = s.room - length (u32_to_be_bytes (length bytes));
        })
        bytes,
    length-u32 (length bytes),
    append_assoc s.outgoing (u32_to_be_bytes (length bytes)) bytes,
  )

  pub read_frame-framed :
      (s : Stream) (bytes rest : Bytes)
      → length bytes < u32_limit
      → s.incoming ≡ framed bytes ++ rest
      → read_frame codec s ≡ (
          if ltb max_request_size (length bytes)
          then (err (too_large (length bytes)), record s { incoming = bytes ++ rest })
          else (map_err undecodable (codec.from_bytes bytes), record s { incoming = rest }))
  unfolding read_frame
  read_frame-framed s bytes rest small e =
      rw
        (
          read_exact-append s (u32_to_be_bytes (length bytes)) (bytes ++ rest) 4
              (e ∙ append_assoc (u32_to_be_bytes (length bytes)) bytes rest)
              (length-u32 (length bytes)),
          from_be_bytes-u32 (length bytes) small,
        )
        (ground (
          arith,
          read_exact-append (record s { incoming = bytes ++ rest }) bytes rest (length bytes) refl
              refl,
        ))

  -- The bytes of a value that is encoded within 65536 bytes are read as that value, with what
  -- follows them left to read. The bytes of a longer value, which the writer sends all the same,
  -- are refused after the length prefix as too large. Either holds on a connection that carries
  -- the frame, for an encoding that is decoded to the value and whose length a u32 holds.
  pub read_frame-write_frame :
      (a : A) (s t : Stream) (bytes rest : Bytes)
      → codec.to_allocvec a ≡ ok bytes
      → codec.from_bytes bytes ≡ ok a
      → length bytes < u32_limit
      → length bytes + 4 ≤ s.room
      → t.incoming ≡ drop (length s.outgoing) (write_frame codec a s).1.outgoing ++ rest
      → ((write_frame codec a s).0 ≡ ok tt)
        × (read_frame codec t ≡ (
            if ltb max_request_size (length bytes)
            then (err (too_large (length bytes)), record t { incoming = bytes ++ rest })
            else (ok a, record t { incoming = rest })))
  read_frame-write_frame a s t bytes rest encoded decoded small fits sent =
      let written = write_frame-ok a s bytes encoded small fits in
      let arrived : t.incoming ≡ framed bytes ++ rest =
        rw (written, drop-append s.outgoing (framed bytes)) at sent in
      (rw written, rw (read_frame-framed t bytes rest small arrived, decoded))

module _ {A : Type 0} (codec : Codec A) where
  -- The value has an encoding within the reader's limit, which is decoded to the value.
  pub record IsSendable (a : A) : Type 0 where
    pub bytes : Bytes
    pub encoded : codec.to_allocvec a ≡ ok bytes
    pub decoded : codec.from_bytes bytes ≡ ok a
    pub fits : length bytes ≤ max_request_size

  pub write-sendable :
      (a : A) (h : IsSendable a) (s : Stream)
      → length h.bytes + 4 ≤ s.room
      → write_frame codec a s ≡ (
        ok tt,
        record s { outgoing = s.outgoing ++ framed h.bytes; room = s.room - (length h.bytes + 4) },
      )
  write-sendable a h s room =
      write_frame-ok codec a s h.bytes h.encoded (omega (arith, h.fits)) room

  pub read-sendable :
      (a : A) (h : IsSendable a) (s : Stream) (rest : Bytes)
      → s.incoming ≡ framed h.bytes ++ rest
      → read_frame codec s ≡ (ok a, record s { incoming = rest })
  read-sendable a h s rest e =
      rw (read_frame-framed codec s h.bytes rest (omega (arith, h.fits)) e)
        (ground (arith, h.fits, h.decoded))
