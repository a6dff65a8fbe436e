-- ===== src/Swarm/Tests.antt =====
-- The waits of a client on concrete reports of the swarm.
use sape.Prelude.{◌+◌, ◌≡◌, refl, List, [], ◌∷◌}
use sape.Prelude.Result.{Result, ok, err}
use sape.Text.{Text, codes}
use sape.Address.{PeerId, p2p, tcp, p2p_circuit, Multiaddr}
use sape.Swarm.{
  identify_sent, identify_received, connection_established, mdns_discovered, discovered,
  another_event, Arrival, Swarm, deadline, Registration, connect_and_identify,
  wait_for_peer_connection, wait_for_mdns_and_connect, wait_for_rendezvous_discovery, wait_loop,
  relay_connect_timed_out, peer_dial_timed_out, relay_connect_timeout,
}
use sape.Swarm.Waits.{timely}
use sape.Swarm.Relay.{HeardFrom, connect_and_identify_iff}

abbrev relay : PeerId
relay = 1 ∷ []

abbrev friend : PeerId
friend = 2 ∷ []

abbrev stranger : PeerId
stranger = 3 ∷ []

abbrev accepts : Multiaddr → Result Text (Unit {0})
accepts [] = err (codes "no address")
accepts (p ∷ addr) = ok tt

abbrev swarm : List Arrival → Swarm
swarm arrivals = record { now = 100; arrivals = arrivals; dialed = [] }

abbrev relay_answers : Swarm
relay_answers =
    swarm (
      (200, another_event) ∷ (300, identify_received (1 ∷ [])) ∷ (400, identify_sent (9 ∷ [])) ∷ [])

identified : (connect_and_identify accepts (tcp 4001 ∷ []) relay_answers).0 ≡ ok tt
unfolding connect_and_identify wait_loop
identified = refl

too_slow :
    (connect_and_identify accepts
      (tcp 4001 ∷ [])
      (swarm ((300, identify_received (1 ∷ [])) ∷ (30101, identify_sent (1 ∷ [])) ∷ []))).0
    ≡ err relay_connect_timed_out
unfolding connect_and_identify wait_loop
too_slow = refl

connect_and_identify_iff_example :
    (accepts (tcp 4001 ∷ []) ≡ ok tt)
    × (HeardFrom identify_received (
          timely
            (deadline (100 + relay_connect_timeout) relay_connect_timed_out)
            relay_answers.arrivals)
        × HeardFrom identify_sent (
            timely
              (deadline (100 + relay_connect_timeout) relay_connect_timed_out)
              relay_answers.arrivals))
connect_and_identify_iff_example =
    (connect_and_identify_iff accepts (tcp 4001 ∷ []) relay_answers).0 identified

abbrev friend_comes : Swarm
friend_comes =
    swarm ((200, connection_established stranger) ∷ (300, connection_established friend) ∷ [])

connected : (wait_for_peer_connection friend friend_comes).0 ≡ ok tt
unfolding wait_for_peer_connection wait_loop
connected = refl

abbrev friend_announced : Swarm
friend_announced = swarm (
    (200, mdns_discovered ((stranger, tcp 1 ∷ []) ∷ (friend, tcp 2 ∷ []) ∷ []))
    ∷ (50000, connection_established friend)
    ∷ [])

abbrev friend_announced_late : Swarm
friend_announced_late = swarm (
    (40000, mdns_discovered ((stranger, tcp 1 ∷ []) ∷ (friend, tcp 2 ∷ []) ∷ []))
    ∷ (50000, connection_established friend)
    ∷ [])

no_connection_in_time :
    (wait_for_mdns_and_connect accepts friend friend_announced).0 ≡ err peer_dial_timed_out
unfolding wait_for_mdns_and_connect wait_for_peer_connection wait_loop
no_connection_in_time = refl

found :
    wait_for_mdns_and_connect accepts friend friend_announced_late
    ≡ (ok tt, record { now = 50000; arrivals = []; dialed = (tcp 2 ∷ []) ∷ [] })
unfolding wait_for_mdns_and_connect wait_for_peer_connection wait_loop
found = refl

abbrev registration : Registration
registration = record {
  peer_id = friend;
  addresses = [] ∷ (tcp 4001 ∷ p2p relay ∷ p2p_circuit ∷ p2p friend ∷ []) ∷ [];
}

abbrev code_resolves : Swarm
code_resolves = swarm (
    (150, discovered (record { peer_id = stranger; addresses = [] } ∷ []) stranger)
    ∷ (200, discovered (registration ∷ []) relay)
    ∷ (900, connection_established friend)
    ∷ [])

-- The address without protocols is dialed with the peer id behind it, the other as it stands.
resolved : wait_for_rendezvous_discovery accepts relay code_resolves ≡ (
  ok friend,
  record {
    now = 900;
    arrivals = [];
    dialed = (p2p friend ∷ []) ∷ (tcp 4001 ∷ p2p relay ∷ p2p_circuit ∷ p2p friend ∷ []) ∷ [];
  },
)
unfolding wait_for_rendezvous_discovery wait_loop
resolved = refl
