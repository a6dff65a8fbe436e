-- ===== src/Relay/Server.antt =====
-- src/relay.rs, `run_relay`: the addresses that the relay listens on, and its loop.
pub mod Addresses
pub mod Loop
pub mod Requests
mod Tests
use sape.Prelude.{
  ℕ, zero, suc, ◌+◌, ◌-◌, ◌*◌, ◌/◌, ◌%◌, ◌≤◌, ◌<◌, ◌≡◌, refl, sym, ap, ◌∙◌, ◌≢◌, ◌↔◌, ◌⊎◌, inl, inr,
  Bool, true, false, not, ◌&&◌, ◌||◌, Option, none, some, List, [], ◌∷◌, ◌++◌, map, append-nil,
  append_assoc, arith, ltb, leb, ◌==◌, if◌then◌else◌, ==_iff, Bool-cases, Option-cases, length,
  get_elem?, take, drop, length-append, take-append, drop-append, All, All-append,
}
use sape.Text.{Text, codes}
use sape.Address.{PeerId, Protocol, ip4, ip6, tcp, udp, quic_v1, ws, p2p, Multiaddr}
use sape.Cli.{RelayOpt}
use sape.Prelude.Result.{Result, ok, err}

abbrev zeros : ℕ → List ℕ
zeros zero = []
zeros (suc n) = 0 ∷ zeros n

abbrev pub ip_protocol : Bool → Protocol
ip_protocol true = ip6 (zeros 16)
ip_protocol false = ip4 (zeros 4)

-- `opt.port + 1` on a u16, as it is built for release; a debug build panics where it wraps.
abbrev pub ws_port : ℕ → ℕ
ws_port port = (port + 1) % 65536

-- The arguments of `swarm.listen_on`, in order.
unfoldable pub listen_addresses : RelayOpt → List Multiaddr
listen_addresses opt =
    (ip_protocol opt.use_ipv6 ∷ tcp opt.port ∷ [])
    ∷ (ip_protocol opt.use_ipv6 ∷ udp opt.port ∷ quic_v1 ∷ [])
    ∷ (ip_protocol opt.use_ipv6 ∷ tcp (ws_port opt.port) ∷ ws (codes "/") ∷ [])
    ∷ []

-- What the loop waits for: the signal to end, the swarm's events that it tells apart, the end of the
-- swarm's stream, and a command of a jump request.
pub data Input : Type 0 where
  ctrl_c stream_end another_event : Input
  identify_received : (observed_addr : Multiaddr) → Input
  new_listen_addr : Multiaddr → Input
  dial_command : Multiaddr → Input

-- The external addresses, the addresses that are dialed, and the relay addresses that are shown.
pub record Server : Type 0 where
  pub external : List Multiaddr
  pub dialed : List Multiaddr
  pub shown : List Multiaddr

pub data Ending : Type 0 where
  shut_down ended_unexpectedly still_running : Ending

abbrev pub relay_address : PeerId → Multiaddr → Multiaddr
relay_address relay_peer_id addr = addr ++ p2p relay_peer_id ∷ []

module _ (relay_peer_id : PeerId) (accepts : Multiaddr → Result Text (Unit {0})) where
  -- `swarm.dial`; an address that libp2p does not take is logged.
  abbrev pub dial_answered : Multiaddr → Result Text (Unit {0}) → Server → Server
  dial_answered addr (ok u) s = record s { dialed = s.dialed ++ addr ∷ [] }
  dial_answered addr (err e) s = s

  abbrev pub handle_event : Input → Server → Server
  handle_event (identify_received addr) s = record s { external = s.external ++ addr ∷ [] }
  handle_event (new_listen_addr addr) s = record s {
    shown = s.shown ++ relay_address relay_peer_id addr ∷ [];
  }
  handle_event (dial_command addr) s = dial_answered addr (accepts addr) s
  handle_event _ s = s

  unfoldable pub serve : List Input → Server → Ending × Server
  serve [] s = (still_running, s)
  serve (ctrl_c ∷ inputs) s = (shut_down, s)
  serve (stream_end ∷ inputs) s = (ended_unexpectedly, s)
  serve (input ∷ inputs) s = serve inputs (handle_event input s)
