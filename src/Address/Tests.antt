-- ===== src/Address/Tests.antt =====
-- Runs of the address helpers, and the theorems at concrete addresses.
use sape.Prelude.{◌≡◌, refl, some, [], ◌∷◌}
use sape.Prelude.Result.{ok, err}
use sape.Address.{
  PeerId, p2p, tcp, udp, ip4, Multiaddr, validate_relay_address, relay_base_from_circuit_address,
  peer_id_from_multiaddr, unsupported_transport,
}
use sape.Address.Validate.{Holds, HasTransport, is_p2p, validate_relay_address_iff}
use sape.Address.Circuit.{
  IsCircuitTo, advertised, relay_base_from_circuit_address_iff, peer_id_from_multiaddr-circuit,
}

abbrev relay_id : PeerId
relay_id = 1 ∷ 2 ∷ []

abbrev listener_id : PeerId
listener_id = 3 ∷ 4 ∷ []

abbrev relay : Multiaddr
relay = ip4 (1 ∷ 2 ∷ 3 ∷ 4 ∷ []) ∷ tcp 4001 ∷ p2p relay_id ∷ []

abbrev circuit : Multiaddr
circuit = advertised relay listener_id

relay_valid : validate_relay_address relay ≡ ok tt
unfolding validate_relay_address
relay_valid = refl

circuit_resolves : relay_base_from_circuit_address circuit ≡ ok (relay, listener_id)
unfolding relay_base_from_circuit_address validate_relay_address
circuit_resolves = refl

udp_alone : validate_relay_address (udp 4001 ∷ p2p relay_id ∷ []) ≡ err unsupported_transport
unfolding validate_relay_address
udp_alone = refl

validate_relay_address_iff_example : Holds is_p2p relay × HasTransport relay
validate_relay_address_iff_example = (validate_relay_address_iff relay).0.0 relay_valid

relay_base_from_circuit_address_iff_example : IsCircuitTo circuit relay listener_id
relay_base_from_circuit_address_iff_example =
    (relay_base_from_circuit_address_iff circuit relay listener_id).0 circuit_resolves

peer_id_from_multiaddr-circuit_example :
    (id : PeerId) × (peer_id_from_multiaddr relay ≡ some id)
    × (peer_id_from_multiaddr circuit ≡ some id)
peer_id_from_multiaddr-circuit_example =
    peer_id_from_multiaddr-circuit circuit relay listener_id circuit_resolves
