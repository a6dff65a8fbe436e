-- ===== src/Listen/Tests.antt =====
-- Sessions between a dialler and a listener on concrete streams.
use sape.Prelude.{
  ℕ, zero, suc, ◌≡◌, refl, sym, inl, inr, true, [], ◌∷◌, arith, ◌==◌, if◌then◌else◌, length,
}
use sape.Prelude.Result.{ok, err}
use sape.Text.{codes}
use sape.Text.Number.{to_string}
use sape.Address.{PeerId}
use sape.Wire.{
  Bytes, Stream, write_frame, write_all, read_frame, read_exact, u32_to_be_bytes, u16_to_be_bytes,
  from_be_bytes, unexpected_eof, length_overflow,
}
use sape.Tunnel.{TunnelRequest, reverse_forward}
use sape.Tunnel.Sample.{sample, sendable}
use sape.Forward.{
  Machine, rejected, ask_reverse, send_reverse_ack, read_reverse_ack, start_reverse_listener, io,
  rejected_by_listener,
}
use sape.Forward.Ack.{read_reverse_ack-send_reverse_ack, send_reverse_ack-long}
use sape.Listen.{handle_tunnel, serve_request}
use sape.Listen.Access.{IsRefused, handle_tunnel-rejected_iff}
use sape.Listen.Sessions.{ask_reverse-handle_tunnel, reverse_effects}

abbrev machine : Machine
machine = record {
  bind = λ addr. if addr.port == 80 then err (codes "denied") else ok tt;
  connect = λ target. ok tt;
}

abbrev dialler : PeerId
dialler = 5 ∷ []

abbrev stream : Bytes → Stream
stream bytes = record { incoming = bytes; outgoing = []; room = 1000 }

abbrev local_bytes : Bytes
local_bytes = 0 ∷ 0 ∷ 0 ∷ 4 ∷ 1 ∷ codes "h:1"

everyone : ¬ IsRefused [] dialler
everyone r = r.0 refl

not_listed : IsRefused ((6 ∷ []) ∷ []) dialler
not_listed = ((λ e. cc), (λ l. elim l [ inl e ↦ cc | inr h ↦ h ]))

handle_tunnel-rejected_iff_example :
    handle_tunnel sample machine ((6 ∷ []) ∷ []) dialler (stream local_bytes)
    ≡ (rejected dialler ∷ [], stream local_bytes)
handle_tunnel-rejected_iff_example =
    (handle_tunnel-rejected_iff sample machine ((6 ∷ []) ∷ []) dialler (stream local_bytes)).1
      not_listed

abbrev ask : TunnelRequest
ask = reverse_forward 80 (codes "h:1") true

abbrev ask_bytes : Bytes
ask_bytes = 0 ∷ 0 ∷ 0 ∷ 6 ∷ 2 ∷ 80 ∷ 1 ∷ codes "h:1"

abbrev denied : Bytes
denied = codes "failed to bind reverse forward on 0.0.0.0:80: denied"

abbrev denied_bytes : Bytes
denied_bytes = 1 ∷ 0 ∷ 52 ∷ denied

asked : (ask_reverse sample 80 (codes "h:1") true (stream denied_bytes)).1.outgoing ≡ ask_bytes
unfolding ask_reverse read_reverse_ack write_frame write_all u32_to_be_bytes read_exact
    from_be_bytes
asked = refl

answered : (handle_tunnel sample machine [] dialler (stream ask_bytes)).1.outgoing ≡ denied_bytes
unfolding handle_tunnel serve_request start_reverse_listener send_reverse_ack read_frame write_all
    u16_to_be_bytes read_exact from_be_bytes to_string
answered = refl

ask_reverse-handle_tunnel_example :
    ((handle_tunnel sample machine [] dialler (stream ask_bytes)).0
      ≡ reverse_effects machine dialler 80 (codes "h:1") true)
    × ((ask_reverse sample 80 (codes "h:1") true (stream denied_bytes)).0
        ≡ err (rejected_by_listener denied))
unfolding to_string
ask_reverse-handle_tunnel_example =
    ask_reverse-handle_tunnel sample machine [] dialler 80 (codes "h:1") true
      (sendable ask (omega arith)) (stream denied_bytes) (stream ask_bytes) everyone (omega arith)
      (omega arith) (omega arith) (sym asked) (sym answered)

read_reverse_ack-send_reverse_ack_example :
    ((send_reverse_ack (err (7 ∷ [])) (stream [])).0 ≡ ok tt)
    × (read_reverse_ack (stream (1 ∷ 0 ∷ 1 ∷ 7 ∷ 9 ∷ []))
        ≡ (err (rejected_by_listener (7 ∷ [])), stream (9 ∷ [])))
unfolding send_reverse_ack write_all u16_to_be_bytes
read_reverse_ack-send_reverse_ack_example =
    read_reverse_ack-send_reverse_ack (err (7 ∷ [])) (stream []) (stream (1 ∷ 0 ∷ 1 ∷ 7 ∷ 9 ∷ []))
      (9 ∷ []) (omega arith) (omega arith) refl

abbrev reverse_bytes : Bytes
reverse_bytes = 0 ∷ 0 ∷ 0 ∷ 6 ∷ 2 ∷ 0 ∷ 0 ∷ codes "h:1"

zeros : ℕ → Bytes
zeros zero = []
zeros (suc n) = 0 ∷ zeros n

length-zeros : (n : ℕ) → length (zeros n) ≡ n
unfolding zeros
length-zeros zero = refl
length-zeros (suc n) = rw (length-zeros n)

-- What the dialler gets of a reason of 65536 bytes.
abbrev long_ack : Stream
long_ack = stream (send_reverse_ack (err (zeros 65536)) (stream [])).1.outgoing

send_reverse_ack-long_example :
    ((send_reverse_ack (err (zeros 65536)) (stream [])).0 ≡ err length_overflow)
    × ((read_reverse_ack long_ack).0 ≡ err (io unexpected_eof))
send_reverse_ack-long_example =
    let long = length-zeros 65536 in
    send_reverse_ack-long (zeros 65536) (stream []) long_ack (omega arith) (omega arith) refl
