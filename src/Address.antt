-- ===== src/Address.antt =====
-- src/types.rs, the address helpers. A peer id is its bytes. A multiaddress is the list of its
-- protocols; the protocols that no code of the program names are `other`.
pub mod Validate
pub mod Circuit
mod Tests
use sape.Prelude.{
  ℕ, zero, suc, ◌+◌, ◌-◌, ◌*◌, ◌/◌, ◌%◌, ◌≤◌, ◌<◌, ◌≡◌, refl, sym, ap, ◌∙◌, ◌≢◌, ◌↔◌, ◌⊎◌, inl, inr,
  Bool, true, false, not, ◌&&◌, ◌||◌, Option, none, some, List, [], ◌∷◌, ◌++◌, map, append-nil,
  append_assoc, arith, ltb, leb, ◌==◌, if◌then◌else◌, ==_iff, Bool-cases, Option-cases, length,
  get_elem?, take, drop, length-append, take-append, drop-append, All, All-append,
}
use sape.Prelude.Result.{Result, ok, err, ok_or, ◌>>=◌, ◌>>◌}
use sape.Text.{Text}

abbrev pub PeerId : Type 0
PeerId = List ℕ

pub data Protocol : Type 0 where
  ip4 ip6 : List ℕ → Protocol
  tcp udp : ℕ → Protocol
  quic_v1 : Protocol
  ws : Text → Protocol
  p2p : PeerId → Protocol
  p2p_circuit : Protocol
  other : List ℕ → Protocol

abbrev pub Multiaddr : Type 0
Multiaddr = List Protocol

pub data AddressError : Type 0 where
  missing_peer_id unsupported_transport missing_circuit missing_listener_peer_id : AddressError

-- The four flags of the loop of `validate_relay_address`.
pub record Flags : Type 0 where
  pub has_p2p : Bool
  pub has_tcp : Bool
  pub has_udp : Bool
  pub has_quic_v1 : Bool

pub note : Flags → Protocol → Flags
note f (p2p id) = record f { has_p2p = true }
note f (tcp port) = record f { has_tcp = true }
note f (udp port) = record f { has_udp = true }
note f quic_v1 = record f { has_quic_v1 = true }
note f _ = f

pub flags_of : Flags → Multiaddr → Flags
flags_of f [] = f
flags_of f (p ∷ addr) = flags_of (note f p) addr

abbrev pub no_flags : Flags
no_flags = record { has_p2p = false; has_tcp = false; has_udp = false; has_quic_v1 = false }

verdict : Flags → Result AddressError (Unit {0})
verdict f =
    if not f.has_p2p
    then err missing_peer_id
    else if f.has_tcp || (f.has_udp && f.has_quic_v1)
    then ok tt
    else err unsupported_transport

unfoldable pub validate_relay_address : Multiaddr → Result AddressError (Unit {0})
unfolding note flags_of verdict
validate_relay_address addr = verdict (flags_of no_flags addr)

-- The three variables of the loop of `relay_base_from_circuit_address`.
pub record Split : Type 0 where
  pub relay_base : Multiaddr
  pub seen_circuit : Bool
  pub remote_peer : Option PeerId

-- One protocol in front of the first circuit marker.
before : Split → Protocol → Split
before s p2p_circuit = record s { seen_circuit = true }
before s p = record s { relay_base = s.relay_base ++ p ∷ [] }

-- One protocol behind it.
after : Split → Protocol → Split
after s (p2p id) = record s { remote_peer = some id }
after s p = s

split_circuit : Split → Multiaddr → Split
split_circuit s [] = s
split_circuit s (p ∷ addr) = split_circuit (if s.seen_circuit then after s p else before s p) addr

abbrev unsplit : Split
unsplit = record { relay_base = []; seen_circuit = false; remote_peer = none }

finish : Split → Result AddressError (Multiaddr × PeerId)
finish s = if not s.seen_circuit then err missing_circuit else do
  remote_peer ← ok_or s.remote_peer missing_listener_peer_id
  validate_relay_address s.relay_base
  ok (s.relay_base, remote_peer)

unfoldable pub relay_base_from_circuit_address :
    Multiaddr → Result AddressError (Multiaddr × PeerId)
unfolding before after split_circuit finish
relay_base_from_circuit_address addr = finish (split_circuit unsplit addr)

-- The first peer id of the address.
unfoldable pub peer_id_from_multiaddr : Multiaddr → Option PeerId
peer_id_from_multiaddr [] = none
peer_id_from_multiaddr (p2p id ∷ addr) = some id
peer_id_from_multiaddr (p ∷ addr) = peer_id_from_multiaddr addr
