-- ===== src/Listen/Sessions.antt =====
-- A request from the dialler's write to the listener's effects, and back.
use sape.Prelude.{
  ℕ, ◌+◌, ◌-◌, ◌≤◌, ◌<◌, ◌≡◌, refl, sym, ◌∙◌, inl, inr, Bool, List, [], ◌∷◌, ◌++◌, append-nil,
  arith, length, drop, drop-append,
}
use sape.Prelude.Result.{Result, ok, err, Result-cases}
use sape.Text.{Text, codes}
use sape.Address.{PeerId}
use sape.Wire.{Bytes, Stream, Codec, u16_limit}
use sape.Wire.Frame.{framed, IsSendable, read-sendable}
use sape.Tunnel.{TunnelRequest, local_forward, reverse_forward}
use sape.Forward.{
  SocketAddr, bind_addr, socket_text, bound, bind_failed, Machine, Effect, handle_forward_to_target,
  ask_reverse, start_reverse_listener,
}
use sape.Forward.Ack.{acked, reason_length, answer, send_reverse_ack-acked}
use sape.Forward.Reverse.{ask_reverse-answer, ask_reverse-outgoing}
use sape.Listen.{serve_request, handle_tunnel}
use sape.Listen.Access.{IsRefused, admitted, admitted_of_not_refused}

-- The reason that the dialler is given where the socket cannot be bound.
abbrev pub bind_reason : ℕ → Bool → Bytes → Bytes
bind_reason port gateway cause =
    codes "failed to bind reverse forward on "
    ++ (socket_text (bind_addr port gateway) ++ (codes ": " ++ cause))

abbrev pub reason_of : ℕ → Bool → Result Bytes (Unit {0}) → Result Bytes (Unit {0})
reason_of port gateway (ok u) = ok tt
reason_of port gateway (err cause) = err (bind_reason port gateway cause)

abbrev pub bind_result : Machine → ℕ → Bool → Result Bytes (Unit {0})
bind_result machine port gateway = reason_of port gateway (machine.bind (bind_addr port gateway))

abbrev effects_of : PeerId → SocketAddr → Text → Result Bytes (Unit {0}) → List Effect
effects_of peer addr target (ok u) = bound addr target peer ∷ []
effects_of peer addr target (err reason) = bind_failed reason ∷ []

abbrev pub reverse_effects : Machine → PeerId → ℕ → Text → Bool → List Effect
reverse_effects machine peer port target gateway =
    effects_of peer (bind_addr port gateway) target (bind_result machine port gateway)

module _ (codec : Codec TunnelRequest) (machine : Machine) (allowed : List PeerId)
    (peer : PeerId) where
  pub handle_tunnel-read :
      (request : TunnelRequest) (h : IsSendable codec request) (t : Stream) (rest : Bytes)
      → (¬ IsRefused allowed peer)
      → t.incoming ≡ framed h.bytes ++ rest
      → handle_tunnel codec machine allowed peer t
        ≡ serve_request machine peer request (record t { incoming = rest })
  handle_tunnel-read request h t rest allows e =
      rw
        (admitted codec machine allowed peer t
          (admitted_of_not_refused codec machine allowed peer allows))
        (rw (read-sendable codec request h t rest e))

  pub served_local :
      (target : Text) (s : Stream)
      → serve_request machine peer (local_forward target) s
        ≡ (handle_forward_to_target machine target, s)
  unfolding serve_request
  served_local target s = refl

  served_reverse :
      (port : ℕ) (target : Text) (gateway : Bool) (s : Stream)
      → reason_length (bind_result machine port gateway) < u16_limit
      → reason_length (bind_result machine port gateway) + 3 ≤ s.room
      → serve_request machine peer (reverse_forward port target gateway) s ≡ (
        reverse_effects machine peer port target gateway,
        record s {
          outgoing = s.outgoing ++ acked (bind_result machine port gateway);
          room = s.room - length (acked (bind_result machine port gateway));
        },
      )
  unfolding serve_request start_reverse_listener
  served_reverse port target gateway s small room =
      elim (Result-cases (machine.bind (bind_addr port gateway))) [
        | inl (u, e) ↦ ground (arith, e, send_reverse_ack-acked (ok tt) s)
        | inr (cause, e) ↦
            ground (arith, e, send_reverse_ack-acked (err (bind_reason port gateway cause)) s)
      ]

  -- A reverse forward, from the dialler's request to the dialler's answer, between a dialler and a
  -- listener whose streams carry each other's bytes, where the listener does not turn the dialler
  -- away. The listener binds the port asked for, on all interfaces if gateway ports are asked for
  -- and else on the local host, with the target asked for; the dialler learns success exactly
  -- where the socket is bound, and else the listener's reason, which has to fit its u16 length.
  pub ask_reverse-handle_tunnel :
      (port : ℕ) (target : Text) (gateway : Bool)
      (h : IsSendable codec (reverse_forward port target gateway)) (d l : Stream)
      → (¬ IsRefused allowed peer)
      → length h.bytes + 4 ≤ d.room
      → reason_length (bind_result machine port gateway) < u16_limit
      → reason_length (bind_result machine port gateway) + 3 ≤ l.room
      → l.incoming ≡ drop (length d.outgoing) (ask_reverse codec port target gateway d).1.outgoing
      → d.incoming
        ≡ drop (length l.outgoing) (handle_tunnel codec machine allowed peer l).1.outgoing
      → ((handle_tunnel codec machine allowed peer l).0
          ≡ reverse_effects machine peer port target gateway)
        × ((ask_reverse codec port target gateway d).0 ≡ answer (bind_result machine port gateway))
  ask_reverse-handle_tunnel port target gateway h d l allows room small room' to_l to_d =
      let result = bind_result machine port gateway in
      let asked : l.incoming ≡ framed h.bytes ++ [] =
        rw
          (
            ask_reverse-outgoing codec port target gateway h d room,
            drop-append d.outgoing (framed h.bytes),
          )
          at to_l
        ∙ sym (append-nil (framed h.bytes)) in
      let handled =
        handle_tunnel-read (reverse_forward port target gateway) h l [] allows asked
        ∙ served_reverse port target gateway (record l { incoming = [] }) small room' in
      let told : d.incoming ≡ acked result ++ [] =
        rw (handled, drop-append l.outgoing (acked result)) at to_d
        ∙ sym (append-nil (acked result)) in
      (rw handled, rw (ask_reverse-answer codec port target gateway h result d [] room small told))
