-- ===== src/Forward/Ack.antt =====
-- The acknowledgement of a reverse forward, from the listener's write to the dialler's read.
use sape.Prelude.{
  ℕ, ◌+◌, ◌-◌, ◌≤◌, ◌<◌, ◌≡◌, refl, ap, ◌∙◌, [], ◌∷◌, ◌++◌, append_assoc, arith, length, drop,
  length-append, drop-append,
}
use sape.Prelude.Result.{Result, ok, err}
use sape.Wire.{Bytes, Stream, unexpected_eof, length_overflow, u16_to_be_bytes, u16_limit}
use sape.Wire.Words.{from_be_bytes-u16, length-u16}
use sape.Wire.Cut.{read_exact-short}
use sape.Wire.Frame.{read_exact-append, write_all-ok}
use sape.Tunnel.{reverse_ok, reverse_failed}
use sape.Forward.{send_reverse_ack, read_reverse_ack, ReverseError, io, rejected_by_listener}

-- The bytes of an acknowledgement whose reason fits its length prefix.
abbrev pub acked : Result Bytes (Unit {0}) → Bytes
acked (ok u) = reverse_ok ∷ []
acked (err reason) = reverse_failed ∷ (u16_to_be_bytes (length reason) ++ reason)

abbrev pub reason_length : Result Bytes (Unit {0}) → ℕ
reason_length (ok u) = 0
reason_length (err reason) = length reason

-- What the dialler makes of an acknowledgement.
abbrev pub answer : Result Bytes (Unit {0}) → Result ReverseError (Unit {0})
answer (ok u) = ok tt
answer (err reason) = err (rejected_by_listener reason)

pub send_reverse_ack-acked :
    (result : Result Bytes (Unit {0})) (s : Stream)
    → reason_length result < u16_limit
    → reason_length result + 3 ≤ s.room
    → send_reverse_ack result s ≡ (
      ok tt,
      record s { outgoing = s.outgoing ++ acked result; room = s.room - length (acked result) },
    )
unfolding send_reverse_ack
send_reverse_ack-acked (ok u) s small fits = rw (write_all-ok s (reverse_ok ∷ []) (omega arith))
send_reverse_ack-acked (err reason) s small fits =
    let len = u16_to_be_bytes (length reason) in
    let s1 = record s { outgoing = s.outgoing ++ reverse_failed ∷ []; room = s.room - 1 } in
    let s2 = record s1 { outgoing = s1.outgoing ++ len; room = s1.room - length len } in
    ground (
      arith,
      write_all-ok s (reverse_failed ∷ []),
      write_all-ok s1 len,
      write_all-ok s2 reason,
      length-u16 (length reason),
      append_assoc s.outgoing (reverse_failed ∷ []) len,
      append_assoc s.outgoing (reverse_failed ∷ len) reason,
      length-append len reason,
    )

pub read_reverse_ack-acked :
    (result : Result Bytes (Unit {0})) (t : Stream) (rest : Bytes)
    → reason_length result < u16_limit
    → t.incoming ≡ acked result ++ rest
    → read_reverse_ack t ≡ (answer result, record t { incoming = rest })
unfolding read_reverse_ack
read_reverse_ack-acked (ok u) t rest small e =
    rw (read_exact-append t (reverse_ok ∷ []) rest 1 e refl)
read_reverse_ack-acked (err reason) t rest small e =
    let len = u16_to_be_bytes (length reason) in
    rw
      (
        read_exact-append t (reverse_failed ∷ []) (len ++ (reason ++ rest)) 1
            (e ∙ ap (λ l. reverse_failed ∷ l) (append_assoc len reason rest)) refl,
        read_exact-append (record t { incoming = len ++ (reason ++ rest) }) len (reason ++ rest) 2
            refl (length-u16 (length reason)),
        from_be_bytes-u16 (length reason) small,
        read_exact-append (record t { incoming = reason ++ rest }) reason rest (length reason) refl
            refl,
      )
      refl

-- What the listener acknowledges is what the dialler learns: success, or the rejection with the
-- whole reason, and no byte behind the acknowledgement is taken. The reason's length has to fit
-- its u16 prefix, and the connection has to carry the acknowledgement.
pub read_reverse_ack-send_reverse_ack :
    (result : Result Bytes (Unit {0})) (s t : Stream) (rest : Bytes)
    → reason_length result < u16_limit
    → reason_length result + 3 ≤ s.room
    → t.incoming ≡ drop (length s.outgoing) (send_reverse_ack result s).1.outgoing ++ rest
    → ((send_reverse_ack result s).0 ≡ ok tt)
      × (read_reverse_ack t ≡ (answer result, record t { incoming = rest }))
read_reverse_ack-send_reverse_ack result s t rest small fits e =
    let sent = send_reverse_ack-acked result s small fits in
    (
      rw sent,
      read_reverse_ack-acked result t rest small
          (rw (sent, drop-append s.outgoing (acked result)) at e),
    )

long-sent :
    (reason : Bytes) (s : Stream)
    → u16_limit ≤ length reason
    → 1 ≤ s.room
    → send_reverse_ack (err reason) s ≡ (
      err length_overflow,
      record s { outgoing = s.outgoing ++ reverse_failed ∷ []; room = s.room - 1 },
    )
unfolding send_reverse_ack
long-sent reason s long room = ground (arith, write_all-ok s (reverse_failed ∷ []))

failure-cut :
    (t : Stream)
    → t.incoming ≡ reverse_failed ∷ []
    → (read_reverse_ack t).0 ≡ err (io unexpected_eof)
unfolding read_reverse_ack
failure-cut t e =
    rw
      (
        read_exact-append t (reverse_failed ∷ []) [] 1 e refl,
        read_exact-short (record t { incoming = [] }) 2 (omega arith),
      )
      refl

-- A reason that its prefix cannot count is not sent: the listener writes the failure byte alone
-- and gives up with an error, and a dialler that gets no more than that byte reports the end of
-- the stream in place of a rejection.
pub send_reverse_ack-long :
    (reason : Bytes) (s t : Stream)
    → u16_limit ≤ length reason
    → 1 ≤ s.room
    → t.incoming ≡ drop (length s.outgoing) (send_reverse_ack (err reason) s).1.outgoing
    → ((send_reverse_ack (err reason) s).0 ≡ err length_overflow)
      × ((read_reverse_ack t).0 ≡ err (io unexpected_eof))
send_reverse_ack-long reason s t long room e =
    let sent = long-sent reason s long room in
    (rw sent, failure-cut t (rw (sent, drop-append s.outgoing (reverse_failed ∷ [])) at e))
