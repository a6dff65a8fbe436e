-- ===== src/Dial.antt =====
-- src/client/dial.rs: from the command line's target to a connection, and the jump session.
pub mod Reach
pub mod Jumps
pub mod Mode
pub mod Run
pub mod Start
pub mod Limits
pub mod InTime
pub mod Forever
pub mod EndToEnd
pub mod Paired
mod Tests
use sape.Prelude.{
  ℕ, zero, suc, ◌+◌, ◌-◌, ◌*◌, ◌/◌, ◌%◌, ◌≤◌, ◌<◌, ◌≡◌, refl, sym, ap, ◌∙◌, ◌≢◌, ◌↔◌, ◌⊎◌, inl, inr,
  Bool, true, false, not, ◌&&◌, ◌||◌, Option, none, some, List, [], ◌∷◌, ◌++◌, map, append-nil,
  append_assoc, arith, ltb, leb, ◌==◌, if◌then◌else◌, ==_iff, Bool-cases, Option-cases, length,
  get_elem?, take, drop, length-append, take-append, drop-append, All, All-append,
}
use sape.Prelude.Result.{Result, ok, err, ok_or, map_err}
use sape.Prelude.Exec.{Exec, pure, raise, lift, map_error, match_result, ◌>>=◌, ◌>>◌}
use sape.Text.{Text}
use sape.Address.{
  PeerId, Multiaddr, AddressError, relay_base_from_circuit_address, peer_id_from_multiaddr,
}
use sape.Libp2p.{TextForms}
use sape.Cli.{DialOpt}
use sape.Target.{DialTarget, mdns, relay_circuit, pairing_code, ForwardSpec}
use sape.Wire.{Stream, IoError, Io, Codec}
use sape.Tunnel.{TunnelRequest, netcat, write_tunnel_request}
use sape.Jump.{JumpChain, JumpResult, jump_ok, jump_error, write_jump_chain, read_jump_result}
use sape.Swarm.{
  Swarm, SwarmError, Client, dial, connect_and_identify, wait_for_peer_connection,
  wait_for_mdns_and_connect, wait_for_rendezvous_discovery,
}

pub data DialMode : Type 0 where
  netcat_mode : DialMode
  local_forward_mode : (bind_port : ℕ) (target : Text) → DialMode
  reverse_forward_mode : (bind_port : ℕ) (target : Text) (gateway_ports : Bool) → DialMode
  socks5_mode : (bind_port : ℕ) → DialMode

abbrev socks_mode : Option ℕ → DialMode
socks_mode none = netcat_mode
socks_mode (some bind_port) = socks5_mode bind_port

abbrev remote_mode : Option ForwardSpec → DialOpt → DialMode
remote_mode none opt = socks_mode opt.socks
remote_mode (some spec) opt = reverse_forward_mode spec.bind_port spec.target opt.gateway_ports

abbrev local_mode : Option ForwardSpec → DialOpt → DialMode
local_mode none opt = remote_mode opt.remote_forward opt
local_mode (some spec) opt = local_forward_mode spec.bind_port spec.target

unfoldable pub parse_dial_mode : DialOpt → DialMode
parse_dial_mode opt = local_mode opt.local_forward opt

pub data SetupError : Type 0 where
  bad_target : AddressError → SetupError
  swarm_error : SwarmError → SetupError
  relay_address_required missing_relay_peer_id : SetupError
  invalid_pairing_code : Text → SetupError

-- The swarm, and the discoveries that were asked for: a namespace, and the rendezvous point.
pub record Setup : Type 0 where
  pub swarm : Swarm
  pub asked : List (Text × PeerId)

abbrev pub on_swarm : {A : Type 0} → Client A → Exec Setup SetupError A
on_swarm m s =
    match_result (m s.swarm) (λ a w. (ok a, record s { swarm = w }))
      (λ e w. (err (swarm_error e), record s { swarm = w }))

-- `rendezvous.discover(Some(namespace), None, None, relay_peer_id)`
abbrev pub discover : Text → PeerId → Exec Setup SetupError (Unit {0})
discover namespace point s = (ok tt, record s { asked = s.asked ++ (namespace, point) ∷ [] })

-- What is asked of libp2p: whether the swarm takes an address to dial, and whether a code is a
-- namespace.
module _ (accepts : Multiaddr → Result Text (Unit {0}))
    (namespace_new : Text → Result Text (Unit {0})) where
  abbrev pub resolve_circuit : Multiaddr → Exec Setup SetupError PeerId
  resolve_circuit addr = do
    (relay_address, remote_peer_id) ←
        lift (map_err bad_target (relay_base_from_circuit_address addr))
    on_swarm (connect_and_identify accepts relay_address)
    on_swarm (dial accepts addr)
    on_swarm (wait_for_peer_connection remote_peer_id)
    pure remote_peer_id

  abbrev pub resolve_mdns : PeerId → Exec Setup SetupError PeerId
  resolve_mdns peer_id = do on_swarm (wait_for_mdns_and_connect accepts peer_id); pure peer_id

  -- The end of a pairing code's branch, given the namespace.
  abbrev pub ask_rendezvous :
      Text → PeerId → Result SetupError (Unit {0}) → Exec Setup SetupError PeerId
  ask_rendezvous code relay_peer_id (err e) s = (err e, s)
  ask_rendezvous code relay_peer_id (ok namespace) s =
      (do
        discover code relay_peer_id
        on_swarm (wait_for_rendezvous_discovery accepts relay_peer_id))
        s

  abbrev pub resolve_code : Option Multiaddr → Text → Exec Setup SetupError PeerId
  resolve_code relay_address_opt code = do
    relay_address ← lift (ok_or relay_address_opt relay_address_required)
    relay_peer_id ← lift (ok_or (peer_id_from_multiaddr relay_address) missing_relay_peer_id)
    on_swarm (connect_and_identify accepts relay_address)
    ask_rendezvous code relay_peer_id (map_err invalid_pairing_code (namespace_new code))

  -- `remote_peer_id`, for each kind of target.
  unfoldable pub resolve_target : DialTarget → Option Multiaddr → Exec Setup SetupError PeerId
  resolve_target (relay_circuit addr) relay_address_opt = resolve_circuit addr
  resolve_target (mdns peer_id) relay_address_opt = resolve_mdns peer_id
  resolve_target (pairing_code code) relay_address_opt = resolve_code relay_address_opt code

pub data JumpFailure : Type 0 where
  jump_with_mdns jump_with_pairing_code : JumpFailure
  stream_error : IoError → JumpFailure
  chain_failed : Text → JumpFailure
  not_supported_yet : DialMode → JumpFailure

-- The hops behind the first, with the target as the last.
unfoldable pub jump_hops : TextForms → DialTarget → List Multiaddr → Result JumpFailure (List Text)
jump_hops forms (relay_circuit addr) rest =
    ok (map forms.multiaddr_to_string rest ++ forms.multiaddr_to_string addr ∷ [])
jump_hops forms (mdns peer_id) rest = err jump_with_mdns
jump_hops forms (pairing_code code) rest = err jump_with_pairing_code

-- What `run_dial` does with the stream to the first jump; the result is that the terminal's session
-- starts.
module _ (chains : Codec JumpChain) (results : Codec JumpResult)
    (requests : Codec TunnelRequest) where
  abbrev pub check_answer : JumpResult → Exec Stream JumpFailure (Unit {0})
  check_answer jump_ok = pure tt
  check_answer (jump_error e) = raise (chain_failed e)

  abbrev pub start_jumped : DialMode → Exec Stream JumpFailure (Unit {0})
  start_jumped netcat_mode = map_error stream_error (write_tunnel_request requests netcat)
  start_jumped mode = raise (not_supported_yet mode)

  unfoldable pub jump_session : JumpChain → DialMode → Exec Stream JumpFailure (Unit {0})
  jump_session chain mode = do
    map_error stream_error (write_jump_chain chains chain)
    answer ← map_error stream_error (read_jump_result results)
    check_answer answer
    start_jumped mode
