-- ===== src/Swarm.antt =====
-- src/client/swarm.rs: what a client waits for before its tunnel starts.
-- The swarm is what it will report, each event with the millisecond at which it is there.
pub mod Waits
pub mod InTime
pub mod Forever
pub mod Drive
pub mod Relay
pub mod Found
pub mod Discovery
mod Tests
use sape.Prelude.{
  ℕ, zero, suc, ◌+◌, ◌-◌, ◌*◌, ◌/◌, ◌%◌, ◌≤◌, ◌<◌, ◌≡◌, refl, sym, ap, ◌∙◌, ◌≢◌, ◌↔◌, ◌⊎◌, inl, inr,
  Bool, true, false, not, ◌&&◌, ◌||◌, Option, none, some, List, [], ◌∷◌, ◌++◌, map, append-nil,
  append_assoc, arith, ltb, leb, ◌==◌, if◌then◌else◌, ==_iff, Bool-cases, Option-cases, length,
  get_elem?, take, drop, length-append, take-append, drop-append, All, All-append,
}
use sape.Prelude.Result.{Result, ok, err, map_err}
use sape.Prelude.Exec.{Exec, pure, raise, lift, match_result, ◌>>=◌, ◌>>◌}
use sape.Text.{Text, text_eq}
use sape.Address.{PeerId, Protocol, p2p, Multiaddr}

pub record Registration : Type 0 where
  pub peer_id : PeerId
  pub addresses : List Multiaddr

-- The events that the waits tell apart; the last is the end of the swarm's stream.
pub data SwarmEvent : Type 0 where
  -- with the peer that the exchange was with
  identify_sent identify_received : PeerId → SwarmEvent
  connection_established : PeerId → SwarmEvent
  mdns_discovered : List (PeerId × Multiaddr) → SwarmEvent
  discovered : List Registration → (rendezvous_node : PeerId) → SwarmEvent
  discover_failed : (rendezvous_node : PeerId) → SwarmEvent
  another_event stream_end : SwarmEvent

pub data SwarmError : Type 0 where
  dial_failed : Text → SwarmError
  ended_unexpectedly relay_connect_timed_out peer_dial_timed_out rendezvous_timed_out : SwarmError
  rendezvous_discovery_failed : SwarmError
  -- not an error of the code: nothing more arrives, and the wait has no time limit
  waits_forever : SwarmError

abbrev pub Arrival : Type 0
Arrival = ℕ × SwarmEvent

pub record Swarm : Type 0 where
  pub now : ℕ
  pub arrivals : List Arrival
  pub dialed : List Multiaddr

abbrev pub Client : Type 0 → Type 0
Client A = Exec Swarm SwarmError A

-- The end of a `timeout`, with the error that it becomes.
pub data Deadline : Type 0 where
  never : Deadline
  deadline : ℕ → SwarmError → Deadline

abbrev pub late : Deadline → ℕ → Bool
late never t = false
late (deadline end e) t = ltb end t

abbrev pub expired : Deadline → SwarmError
expired never = waits_forever
expired (deadline end e) = e

-- A `timeout` inside another: the one that ends first counts, and the inner is polled first.
abbrev pub within : Deadline → Deadline → Deadline
within never inner = inner
within outer never = outer
within (deadline outer e) (deadline inner e') =
    if ltb outer inner then deadline outer e else deadline inner e'

abbrev pub later : ℕ → ℕ → ℕ
later s t = if leb s t then t else s

-- The millisecond at which a `timeout` that expires does so.
abbrev pub until : Deadline → ℕ → ℕ
until never now = now
until (deadline end e) now = later now end

-- What one round of a loop over the swarm's events comes to.
pub data Round (S A : Type 0) : Type 0 where
  more : S → Round S A
  done : A → Round S A
  failed : SwarmError → Round S A

-- `loop { let Some(event) = swarm.next().await else { bail!(…) }; match event { … } }`
unfoldable pub wait_loop :
    {S A : Type 0}
    → (S → SwarmEvent → Round S A)
    → Deadline
    → S
    → ℕ
    → List Multiaddr
    → List Arrival
    → Result SwarmError A × Swarm
wait_loop round d st now dialed [] =
    (err (expired d), record { now = until d now; arrivals = []; dialed = dialed })
wait_loop round d st now dialed ((t, e) ∷ rest) = elim (late d t) [
  | true ↦
      (err (expired d), record { now = until d now; arrivals = (t, e) ∷ rest; dialed = dialed })
  | false ↦ elim (round st e) [
    | more st' ↦ wait_loop round d st' (later now t) dialed rest
    | done a ↦ (ok a, record { now = later now t; arrivals = rest; dialed = dialed })
    | failed x ↦ (err x, record { now = later now t; arrivals = rest; dialed = dialed })
  ]
]

abbrev pub wait : {S A : Type 0} → (S → SwarmEvent → Round S A) → Deadline → S → Client A
wait round d st w = wait_loop round d st w.now w.dialed w.arrivals

-- `RELAY_CONNECT_TIMEOUT` and `PEER_DIAL_TIMEOUT`, in milliseconds
abbrev pub relay_connect_timeout : ℕ
relay_connect_timeout = 30000

abbrev pub peer_dial_timeout : ℕ
peer_dial_timeout = 30000

-- `swarm.dial`, given the answer of libp2p.
abbrev pub dial_answered : Multiaddr → Result Text (Unit {0}) → Client (Unit {0})
dial_answered addr (ok u) w = (ok tt, record w { dialed = w.dialed ++ addr ∷ [] })
dial_answered addr (err e) w = (err (dial_failed e), w)

abbrev pub dial : (Multiaddr → Result Text (Unit {0})) → Multiaddr → Client (Unit {0})
dial accepts addr = dial_answered addr (accepts addr)

-- The flags `learned_observed_addr` and `told_relay_observed_addr`, after an event.
abbrev pub continue_until_both : Bool × Bool → Round (Bool × Bool) (Unit {0})
continue_until_both (learned, told) = if learned && told then done tt else more (learned, told)

abbrev pub identify_round : Bool × Bool → SwarmEvent → Round (Bool × Bool) (Unit {0})
identify_round (learned, told) stream_end = failed ended_unexpectedly
identify_round (learned, told) (identify_sent peer_id) = continue_until_both (learned, true)
identify_round (learned, told) (identify_received peer_id) = continue_until_both (true, told)
identify_round (learned, told) _ = continue_until_both (learned, told)

abbrev pub wait_for_identify : Client (Unit {0})
wait_for_identify w =
    wait identify_round (deadline (w.now + relay_connect_timeout) relay_connect_timed_out)
      (false, false) w

abbrev pub connection_round : PeerId → Unit {0} → SwarmEvent → Round (Unit {0}) (Unit {0})
connection_round expected_peer u stream_end = failed ended_unexpectedly
connection_round expected_peer u (connection_established peer_id) =
    if text_eq peer_id expected_peer then done tt else more tt
connection_round expected_peer u _ = more tt

-- The wait within the `timeout` of a caller.
abbrev pub wait_for_peer_connection_within : Deadline → PeerId → Client (Unit {0})
wait_for_peer_connection_within outer expected_peer w =
    wait (connection_round expected_peer)
      (within outer (deadline (w.now + peer_dial_timeout) peer_dial_timed_out)) tt w

unfoldable pub wait_for_peer_connection : PeerId → Client (Unit {0})
wait_for_peer_connection = wait_for_peer_connection_within never

-- The first address that mDNS announces for the peer.
abbrev pub announced : PeerId → List (PeerId × Multiaddr) → Option Multiaddr
announced expected_peer [] = none
announced expected_peer ((peer_id, addr) ∷ peers) =
    let rest = announced expected_peer peers in
    if text_eq peer_id expected_peer then some addr else rest

-- The loop ends with the address to dial, or with nothing to do.
abbrev pub mdns_round : PeerId → Unit {0} → SwarmEvent → Round (Unit {0}) (Option Multiaddr)
mdns_round expected_peer u stream_end = failed ended_unexpectedly
mdns_round expected_peer u (mdns_discovered peers) = elim (announced expected_peer peers) [
  | none ↦ more tt
  | some addr ↦ done (some addr)
]
mdns_round expected_peer u (connection_established peer_id) =
    if text_eq peer_id expected_peer then done none else more tt
mdns_round expected_peer u _ = more tt

abbrev first_registration : List Registration → Round (Unit {0}) Registration
first_registration [] = more tt
first_registration (r ∷ rs) = done r

abbrev pub rendezvous_round : PeerId → Unit {0} → SwarmEvent → Round (Unit {0}) Registration
rendezvous_round rendezvous_point u stream_end = failed ended_unexpectedly
rendezvous_round rendezvous_point u (discovered registrations rendezvous_node) =
    if not (text_eq rendezvous_node rendezvous_point)
    then more tt
    else first_registration registrations
rendezvous_round rendezvous_point u (discover_failed rendezvous_node) =
    if text_eq rendezvous_node rendezvous_point then failed rendezvous_discovery_failed else more tt
rendezvous_round rendezvous_point u _ = more tt

abbrev pub ends_in : PeerId → Multiaddr → Bool
ends_in peer [] = false
ends_in peer (p2p id ∷ []) = text_eq id peer
ends_in peer (p ∷ []) = false
ends_in peer (p ∷ q ∷ addr) = ends_in peer (q ∷ addr)

-- The address with the peer id behind it, once.
abbrev pub address_of : PeerId → Multiaddr → Multiaddr
address_of peer address = if ends_in peer address then address else address ++ p2p peer ∷ []

module _ (accepts : Multiaddr → Result Text (Unit {0})) where
  unfoldable pub connect_and_identify : Multiaddr → Client (Unit {0})
  connect_and_identify relay_address = do dial accepts relay_address; wait_for_identify

  abbrev pub finish_mdns : PeerId → Option Multiaddr → Client (Unit {0})
  finish_mdns expected_peer none = pure tt
  finish_mdns expected_peer (some addr) = do
    dial accepts addr
    wait_for_peer_connection expected_peer

  unfoldable pub wait_for_mdns_and_connect : PeerId → Client (Unit {0})
  wait_for_mdns_and_connect expected_peer = do
    found ← wait (mdns_round expected_peer) never tt
    finish_mdns expected_peer found

  -- Every address is dialed; one that libp2p does not take is logged.
  abbrev pub dial_all : PeerId → List Multiaddr → Client (Unit {0})
  dial_all peer [] w = (ok tt, w)
  dial_all peer (address ∷ addresses) w =
      match_result (dial accepts (address_of peer address) w) (λ u w'. dial_all peer addresses w')
        (λ e w'. dial_all peer addresses w')

  unfoldable pub wait_for_rendezvous_discovery : PeerId → Client PeerId
  wait_for_rendezvous_discovery rendezvous_point w =
      let limit = deadline (w.now + peer_dial_timeout) rendezvous_timed_out in
      (do
        registration ← wait (rendezvous_round rendezvous_point) limit tt
        dial_all registration.peer_id registration.addresses
        wait_for_peer_connection_within limit registration.peer_id
        pure registration.peer_id)
        w
