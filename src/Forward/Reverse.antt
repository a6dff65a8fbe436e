-- ===== src/Forward/Reverse.antt =====
-- The dialler's side of a reverse forward, from the request to its answer.
use sape.Prelude.{
  ℕ, ◌+◌, ◌-◌, ◌≤◌, ◌<◌, ◌≡◌, refl, Bool, some, [], ◌∷◌, ◌++◌, arith, length, drop, drop-append,
}
use sape.Prelude.Result.{Result, ok}
use sape.Text.{Text}
use sape.Wire.{Bytes, Stream, Codec, u16_limit, read_exact}
use sape.Wire.Frame.{framed, IsSendable, write-sendable}
use sape.Tunnel.{TunnelRequest, local_forward, reverse_forward}
use sape.Forward.{bridged, ask_reverse, forward_connection, local_connection, read_reverse_ack}
use sape.Forward.Ack.{acked, reason_length, answer, read_reverse_ack-acked}

outgoing-read_reverse_ack : (s : Stream) → (read_reverse_ack s).1.outgoing ≡ s.outgoing
unfolding read_reverse_ack read_exact
outgoing-read_reverse_ack s = ground arith

module _ (codec : Codec TunnelRequest) where
  pub ask_reverse-answer :
      (bind_port : ℕ) (target : Text) (gateway_ports : Bool)
      (h : IsSendable codec (reverse_forward bind_port target gateway_ports))
      (result : Result Bytes (Unit {0})) (s : Stream) (rest : Bytes)
      → length h.bytes + 4 ≤ s.room
      → reason_length result < u16_limit
      → s.incoming ≡ acked result ++ rest
      → ask_reverse codec bind_port target gateway_ports s ≡ (
        answer result,
        record {
          incoming = rest;
          outgoing = s.outgoing ++ framed h.bytes;
          room = s.room - (length h.bytes + 4);
        },
      )
  unfolding ask_reverse
  ask_reverse-answer bind_port target gateway_ports h result s rest room small e =
      rw (write-sendable codec (reverse_forward bind_port target gateway_ports) h s room) (
        read_reverse_ack-acked result
          (record s {
            outgoing = s.outgoing ++ framed h.bytes;
            room = s.room - (length h.bytes + 4);
          })
          rest small e)

  -- What the dialler sends does not depend on what it is answered.
  pub ask_reverse-outgoing :
      (bind_port : ℕ) (target : Text) (gateway_ports : Bool)
      (h : IsSendable codec (reverse_forward bind_port target gateway_ports)) (s : Stream)
      → length h.bytes + 4 ≤ s.room
      → (ask_reverse codec bind_port target gateway_ports s).1.outgoing
        ≡ s.outgoing ++ framed h.bytes
  unfolding ask_reverse
  ask_reverse-outgoing bind_port target gateway_ports h s room =
      rw (write-sendable codec (reverse_forward bind_port target gateway_ports) h s room)
        (outgoing-read_reverse_ack _)

  pub forward_connection-sent :
      (request : TunnelRequest) (h : IsSendable codec request) (s : Stream)
      → length h.bytes + 4 ≤ s.room
      → forward_connection codec request (ok s) ≡ (
        bridged ∷ [],
        some (record s {
          outgoing = s.outgoing ++ framed h.bytes;
          room = s.room - (length h.bytes + 4);
        }),
      )
  unfolding forward_connection
  forward_connection-sent request h s room = rw (write-sendable codec request h s room)

  pub arrives :
      (request : TunnelRequest) (h : IsSendable codec request) (s s' t : Stream) (rest : Bytes)
      → length h.bytes + 4 ≤ s.room
      → (forward_connection codec request (ok s)).1 ≡ some s'
      → t.incoming ≡ drop (length s.outgoing) s'.outgoing ++ rest
      → t.incoming ≡ framed h.bytes ++ rest
  arrives request h s s' t rest room sent e =
      let out : s'.outgoing ≡ s.outgoing ++ framed h.bytes =
        ground (arith, forward_connection-sent request h s room) in
      rw (out, drop-append s.outgoing (framed h.bytes)) at e

  pub local-sent :
      (target : Text) (s : Stream)
      → local_connection codec target (ok s)
        ≡ forward_connection codec (local_forward target) (ok s)
  unfolding local_connection
  local-sent target s = refl
