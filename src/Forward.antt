-- ===== src/Forward.antt =====
-- src/forward: reverse acknowledgements, and what each side of a forward does per connection.
-- A machine is what its sockets answer: `bind` and `connect` of tokio, with the cause of a failure.
pub mod Ack
pub mod Reverse
use sape.Prelude.{
  ℕ, zero, suc, ◌+◌, ◌-◌, ◌*◌, ◌/◌, ◌%◌, ◌≤◌, ◌<◌, ◌≡◌, refl, sym, ap, ◌∙◌, ◌≢◌, ◌↔◌, ◌⊎◌, inl, inr,
  Bool, true, false, not, ◌&&◌, ◌||◌, Option, none, some, List, [], ◌∷◌, ◌++◌, map, append-nil,
  append_assoc, arith, ltb, leb, ◌==◌, if◌then◌else◌, ==_iff, Bool-cases, Option-cases, length,
  get_elem?, take, drop, length-append, take-append, drop-append, All, All-append,
}
use sape.Prelude.Result.{Result, ok, err, map_err}
use sape.Prelude.Exec.{Exec, pure, raise, lift, map_error, match_result, ◌>>=◌, ◌>>◌}
use sape.Text.{Text, codes}
use sape.Text.Number.{to_string}
use sape.Address.{PeerId}
use sape.Wire.{
  Bytes, Stream, IoError, not_opened, Io, read_exact, write_all, flush, u16_to_be_bytes,
  from_be_bytes, u16_limit, try_from, Codec,
}
use sape.Tunnel.{
  TunnelRequest, netcat, local_forward, reverse_forward, reverse_ok, reverse_failed,
  read_tunnel_request, write_tunnel_request,
}

-- `Ipv4Addr::UNSPECIFIED` and `Ipv4Addr::LOCALHOST`
pub data BindIp : Type 0 where
  unspecified localhost : BindIp

pub record SocketAddr : Type 0 where
  pub ip : BindIp
  pub port : ℕ

abbrev ip_text : BindIp → Text
ip_text unspecified = codes "0.0.0.0"
ip_text localhost = codes "127.0.0.1"

abbrev pub socket_text : SocketAddr → Text
socket_text addr = ip_text addr.ip ++ b':' ∷ to_string addr.port

pub record Machine : Type 0 where
  pub bind : SocketAddr → Result Bytes (Unit {0})
  pub connect : Text → Result Bytes (Unit {0})

-- What a task does to the outside, in order.
pub data Effect : Type 0 where
  -- standard input and output are copied to and from the stream
  netcat_session : Effect
  -- a connection to the target is copied to and from the stream
  connected : Text → Effect
  connect_failed : Text → Bytes → Effect
  -- a socket is bound, whose connections go to the target through streams to the peer
  bound : SocketAddr → Text → PeerId → Effect
  rejected : PeerId → Effect
  read_failed : IoError → Effect
  ack_failed : IoError → Effect
  bind_failed : Bytes → Effect
  unexpected_request : PeerId → TunnelRequest → Effect
  open_failed : Text → Effect
  send_failed : IoError → Effect
  -- an accepted connection is copied to and from the stream
  bridged : Effect

-- A reason is its UTF-8 bytes.
unfoldable pub send_reverse_ack : Result Bytes (Unit {0}) → Io (Unit {0})
send_reverse_ack (ok u) = do write_all (reverse_ok ∷ []); flush
send_reverse_ack (err reason) = do
  write_all (reverse_failed ∷ [])
  len ← lift (try_from u16_limit (length reason))
  write_all (u16_to_be_bytes len)
  write_all reason
  flush

-- `open_stream`: the outcome of libp2p's is an argument.
abbrev pub open_stream : Result Text Stream → Result IoError Stream
open_stream = map_err not_opened

-- `handle_forward_to_target`
abbrev pub handle_forward_to_target : Machine → Text → List Effect
handle_forward_to_target machine target = elim (machine.connect target) [
  | ok u ↦ connected target ∷ []
  | err cause ↦ connect_failed target cause ∷ []
]

abbrev pub bind_addr : ℕ → Bool → SocketAddr
bind_addr bind_port gateway_ports = record {
  ip = if gateway_ports then unspecified else localhost;
  port = bind_port;
}

-- `start_reverse_listener`, up to the task that it spawns; the error is its full chain of texts.
unfoldable pub start_reverse_listener :
    Machine → PeerId → ℕ → Text → Bool → Result Bytes (Unit {0}) × List Effect
start_reverse_listener machine remote_peer bind_port target gateway_ports =
    let addr = bind_addr bind_port gateway_ports in
    elim (machine.bind addr) [
      | ok u ↦ (ok tt, bound addr target remote_peer ∷ [])
      | err cause ↦ (
        err (
            codes "failed to bind reverse forward on "
            ++ (socket_text addr ++ (codes ": " ++ cause))),
        [],
      )
    ]

pub data ReverseError : Type 0 where
  -- no stream for the request
  no_stream : Text → ReverseError
  io : IoError → ReverseError
  -- rejected by the listener, with the bytes of its reason
  rejected_by_listener : Bytes → ReverseError

-- `buf[0]` of a buffer that is not empty
abbrev pub first_byte : Bytes → ℕ
first_byte [] = 0
first_byte (b ∷ bs) = b

-- How `request_reverse_forward` reads the acknowledgement.
unfoldable pub read_reverse_ack : Exec Stream ReverseError (Unit {0})
read_reverse_ack = do
  ack ← map_error io (read_exact 1)
  if first_byte ack == reverse_ok then pure tt else do
    len_buf ← map_error io (read_exact 2)
    reason ← map_error io (read_exact (from_be_bytes len_buf))
    raise (rejected_by_listener reason)

module _ (codec : Codec TunnelRequest) where
  -- `request_reverse_forward` on its stream.
  unfoldable pub ask_reverse : ℕ → Text → Bool → Exec Stream ReverseError (Unit {0})
  ask_reverse bind_port target gateway_ports = do
    map_error io (write_tunnel_request codec (reverse_forward bind_port target gateway_ports))
    read_reverse_ack

  -- The stream is `none` where it could not be opened.
  unfoldable pub request_reverse_forward :
      Result Text Stream → ℕ → Text → Bool → Result ReverseError (Unit {0}) × Option Stream
  request_reverse_forward (err e) bind_port target gateway_ports = (err (no_stream e), none)
  request_reverse_forward (ok s) bind_port target gateway_ports =
      let (r, s') = ask_reverse bind_port target gateway_ports s in (r, some s')

  -- The task for one accepted connection, in `run_local_forward` and in the listener's loop of
  -- `start_reverse_listener`: a stream is opened, the request is sent, and bytes are copied.
  unfoldable pub forward_connection :
      TunnelRequest → Result Text Stream → List Effect × Option Stream
  forward_connection request (err e) = (open_failed e ∷ [], none)
  forward_connection request (ok s) =
      match_result (write_tunnel_request codec request s) (λ u s'. (bridged ∷ [], some s'))
        (λ e s'. (send_failed e ∷ [], some s'))

  unfoldable pub local_connection : Text → Result Text Stream → List Effect × Option Stream
  unfolding forward_connection
  local_connection target = forward_connection (local_forward target)

  unfoldable pub reverse_connection : Text → Result Text Stream → List Effect × Option Stream
  unfolding forward_connection
  reverse_connection target = forward_connection (reverse_forward 0 target false)

  -- The loop that `start_reverse_listener` spawns, over what its socket accepts, with what
  -- `open_stream` gives for each connection. A connection that cannot be accepted is logged.
  unfoldable pub serve_reverse :
      Text → List (Result Text (Result Text Stream)) → List (List Effect × Option Stream)
  unfolding reverse_connection
  serve_reverse target [] = []
  serve_reverse target (err e ∷ accepted) = serve_reverse target accepted
  serve_reverse target (ok opened ∷ accepted) =
      reverse_connection target opened ∷ serve_reverse target accepted

  pub dispatch_reverse : Machine → PeerId → TunnelRequest → List Effect
  dispatch_reverse machine peer (reverse_forward bind_port target gateway_ports) =
      handle_forward_to_target machine target
  dispatch_reverse machine peer request = unexpected_request peer request ∷ []

  -- One round of `run_incoming_reverse_handler`.
  unfoldable pub incoming_reverse : Machine → PeerId → Stream → List Effect
  unfolding dispatch_reverse
  incoming_reverse machine peer s =
      match_result (read_tunnel_request codec s)
        (λ request s'. dispatch_reverse machine peer request) (λ e s'. read_failed e ∷ [])

  -- The loop, over the streams that arrive; it ends, with an error, when no more can.
  unfoldable pub run_incoming_reverse_handler : Machine → List (PeerId × Stream) → List Effect
  unfolding incoming_reverse
  run_incoming_reverse_handler machine [] = []
  run_incoming_reverse_handler machine ((peer, s) ∷ incoming) =
      incoming_reverse machine peer s ++ run_incoming_reverse_handler machine incoming
