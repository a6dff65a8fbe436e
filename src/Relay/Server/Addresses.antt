-- ===== src/Relay/Server/Addresses.antt =====
-- The relay's own addresses, as a client's relay address.
use sape.Prelude.{
  ℕ, suc, ◌<◌, ◌≡◌, refl, ◌≢◌, true, false, some, List, [], ◌∷◌, arith, ◌==◌, if◌then◌else◌, All,
}
use sape.Prelude.Result.{ok}
use sape.Address.{PeerId, tcp, Multiaddr, validate_relay_address, peer_id_from_multiaddr}
use sape.Address.Circuit.{advertised}
use sape.Address.{relay_base_from_circuit_address}
use sape.Cli.{RelayOpt}
use sape.Relay.Server.{listen_addresses, relay_address, ws_port}

-- Through the address, a client that is given it comes to the relay and, behind it, to any listener.
abbrev pub Serves : PeerId → PeerId → Multiaddr → Type 0
Serves relay listener addr =
    (validate_relay_address (relay_address relay addr) ≡ ok tt)
    × ((peer_id_from_multiaddr (relay_address relay addr) ≡ some relay)
        × (relay_base_from_circuit_address (advertised (relay_address relay addr) listener)
            ≡ ok (relay_address relay addr, listener)))

-- Each of the three addresses that the relay listens on, shown with its peer id, is accepted as a
-- relay's address, names the relay, and is what a dialler finds again in the circuit address that any
-- listener makes of it.
pub listen_addresses-Serves :
    (opt : RelayOpt) (relay listener : PeerId) → All (Serves relay listener) (listen_addresses opt)
unfolding listen_addresses validate_relay_address peer_id_from_multiaddr
    relay_base_from_circuit_address
listen_addresses-Serves opt relay listener =
    elim opt.use_ipv6
      as (λ v6. All (Serves relay listener) (listen_addresses (record opt { use_ipv6 = v6 }))) [
        | true ↦ ((refl, (refl, refl)), ((refl, (refl, refl)), ((refl, (refl, refl)), tt)))
        | false ↦ ((refl, (refl, refl)), ((refl, (refl, refl)), ((refl, (refl, refl)), tt)))
      ]

abbrev pub tcp_ports : List Multiaddr → List ℕ
tcp_ports [] = []
tcp_ports ((ip ∷ tcp port ∷ rest) ∷ addrs) = port ∷ tcp_ports addrs
tcp_ports (addr ∷ addrs) = tcp_ports addrs

next_port : (port : ℕ) → port < 65536 → ws_port port ≡ (if port == 65535 then 0 else suc port)
next_port port lt = ground arith

-- The WebSocket listener's port is the one after the TCP listener's, for each port but the last; for
-- port 65535 it is 0, which lets the system choose another port. The two are never the same.
pub tcp_ports-listen_addresses :
    (opt : RelayOpt)
    → opt.port < 65536
    → (tcp_ports (listen_addresses opt)
        ≡ opt.port ∷ (if opt.port == 65535 then 0 else suc opt.port) ∷ [])
      × (opt.port ≢ (if opt.port == 65535 then 0 else suc opt.port))
unfolding listen_addresses
tcp_ports-listen_addresses opt lt = (rw (next_port opt.port lt) refl, ground arith)
