-- ===== src/Dial/Run.antt =====
-- src/client/dial.rs, the end of `run_dial`: what a dialler starts once it is connected; with
-- `run_local_forward` of src/forward/local.rs and `run_socks5` of src/forward/socks5.rs.
pub mod Requests
use sape.Prelude.{
  ℕ, zero, suc, ◌+◌, ◌-◌, ◌*◌, ◌/◌, ◌%◌, ◌≤◌, ◌<◌, ◌≡◌, refl, sym, ap, ◌∙◌, ◌≢◌, ◌↔◌, ◌⊎◌, inl, inr,
  Bool, true, false, not, ◌&&◌, ◌||◌, Option, none, some, List, [], ◌∷◌, ◌++◌, map, append-nil,
  append_assoc, arith, ltb, leb, ◌==◌, if◌then◌else◌, ==_iff, Bool-cases, Option-cases, length,
  get_elem?, take, drop, length-append, take-append, drop-append, All, All-append,
}
use sape.Prelude.Result.{Result, ok, err}
use sape.Prelude.Exec.{match_result}
use sape.Text.{Text}
use sape.Address.{PeerId}
use sape.Wire.{Bytes, Stream, IoError, Codec}
use sape.Tunnel.{TunnelRequest, netcat, write_tunnel_request}
use sape.Forward.{
  Machine, SocketAddr, localhost, Effect, ReverseError, local_connection, request_reverse_forward,
  run_incoming_reverse_handler,
}
use sape.Proxy.{Client, Socks5, proxy_connection}
use sape.Dial.{DialMode, netcat_mode, local_forward_mode, reverse_forward_mode, socks5_mode}

-- How `run_dial` returns; a loop that waits for the next connection has not.
pub data Ending : Type 0 where
  returned still_accepting incoming_ended : Ending
  bind_error : Bytes → Ending
  accept_error : Text → Ending
  no_stream : Text → Ending
  request_failed : IoError → Ending
  reverse_failed : ReverseError → Ending

-- The sockets that were bound, the tunnel stream of each session as the dialler leaves it to the
-- copying, where there is one, and what incoming streams came to.
pub record Running : Type 0 where
  pub ending : Ending
  pub bound : List SocketAddr
  pub streams : List (Option Stream)
  pub effects : List Effect

-- What the dialler meets: its machine, what `open_stream` gives for its own session, the streams that
-- come in, the connections that it accepts with what `open_stream` gives for each, and the crate
-- fast_socks5. A connection that cannot be accepted is an error.
pub record Meeting : Type 0 where
  pub machine : Machine
  pub opened : Result Text Stream
  pub incoming : List (PeerId × Stream)
  pub accepted : List (Result Text (Client × Result Text Stream))
  pub socks5 : Socks5

abbrev pub loopback : ℕ → SocketAddr
loopback port = record { ip = localhost; port = port }

abbrev pub only : Ending → List (Option Stream) → Running
only ending streams = record { ending = ending; bound = []; streams = streams; effects = [] }

-- `let (…) = listener.accept().await?`, round after round, with a task for each connection.
pub accept_loop :
    (Client × Result Text Stream → Option Stream)
    → List (Result Text (Client × Result Text Stream))
    → Ending × List (Option Stream)
accept_loop task [] = (still_accepting, [])
accept_loop task (err e ∷ accepted) = (accept_error e, [])
accept_loop task (ok connection ∷ accepted) =
    let (ending, streams) = accept_loop task accepted in (ending, task connection ∷ streams)

module _ (codec : Codec TunnelRequest) (meeting : Meeting) where
  -- The proxies' and the local forward's loop on a socket of the local host.
  abbrev pub listening : ℕ → (Client × Result Text Stream → Option Stream) → Running
  listening bind_port task = elim (meeting.machine.bind (loopback bind_port)) [
    | err cause ↦ only (bind_error cause) []
    | ok u ↦
        let (ending, streams) = accept_loop task meeting.accepted in
        record { ending = ending; bound = loopback bind_port ∷ []; streams = streams; effects = [] }
  ]

  abbrev pub local_task : Text → Client × Result Text Stream → Option Stream
  local_task target (client, opened) = (local_connection codec target opened).1

  abbrev pub proxy_task : Client × Result Text Stream → Option Stream
  proxy_task (client, opened) = (proxy_connection meeting.socks5 codec opened client).1.tunnel

  unfoldable pub run_local_forward : ℕ → Text → Running
  unfolding accept_loop
  run_local_forward bind_port target = listening bind_port (local_task target)

  unfoldable pub run_socks5 : ℕ → Running
  unfolding accept_loop
  run_socks5 bind_port = listening bind_port proxy_task

  abbrev pub run_netcat_mode : Result Text Stream → Running
  run_netcat_mode (err e) = only (no_stream e) []
  run_netcat_mode (ok s) =
      match_result (write_tunnel_request codec netcat s) (λ u s'. only returned (some s' ∷ []))
        (λ e s'. only (request_failed e) (some s' ∷ []))

  abbrev pub run_reverse_mode : ℕ → Text → Bool → Running
  run_reverse_mode bind_port target gateway_ports =
      match_result (request_reverse_forward codec meeting.opened bind_port target gateway_ports)
        (λ u s. record {
          ending = incoming_ended;
          bound = [];
          streams = s ∷ [];
          effects = run_incoming_reverse_handler codec meeting.machine meeting.incoming;
        })
        (λ e s. only (reverse_failed e) (s ∷ []))

  unfoldable pub run_dial_mode : DialMode → Running
  run_dial_mode netcat_mode = run_netcat_mode meeting.opened
  run_dial_mode (local_forward_mode bind_port target) = run_local_forward bind_port target
  run_dial_mode (reverse_forward_mode bind_port target gateway_ports) =
      run_reverse_mode bind_port target gateway_ports
  run_dial_mode (socks5_mode bind_port) = run_socks5 bind_port
