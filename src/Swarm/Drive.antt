-- ===== src/Swarm/Drive.antt =====
-- src/client/swarm.rs, `drive_client_swarm`: the loop that a client's swarm runs in behind its session,
-- and what it logs.
mod Tests
use sape.Prelude.{
  ℕ, zero, suc, ◌+◌, ◌-◌, ◌*◌, ◌/◌, ◌%◌, ◌≤◌, ◌<◌, ◌≡◌, refl, sym, ap, ◌∙◌, ◌≢◌, ◌↔◌, ◌⊎◌, inl, inr,
  Bool, true, false, not, ◌&&◌, ◌||◌, Option, none, some, List, [], ◌∷◌, ◌++◌, map, append-nil,
  append_assoc, arith, ltb, leb, ◌==◌, if◌then◌else◌, ==_iff, Bool-cases, Option-cases, length,
  get_elem?, take, drop, length-append, take-append, drop-append, All, All-append,
}
use sape.Prelude.Result.{Result, ok, err}
use sape.Text.{Text, codes}
use sape.Address.{PeerId, Multiaddr}
use sape.Swarm.{Registration}

pub data MdnsEvent : Type 0 where
  mdns_found mdns_expired : List (PeerId × Multiaddr) → MdnsEvent

-- The texts are the values that are shown by their `Debug`.
pub data RendezvousEvent : Type 0 where
  registered : (namespace ttl : Text) (rendezvous_node : PeerId) → RendezvousEvent
  found : (registrations : List Registration) (rendezvous_node : PeerId) → RendezvousEvent
  register_failed find_failed :
      (namespace error : Text) (rendezvous_node : PeerId) → RendezvousEvent
  registration_expired : (event : Text) → RendezvousEvent

pub data DriveEvent : Type 0 where
  new_listen_addr : Multiaddr → DriveEvent
  established : (peer_id : PeerId) (endpoint : Text) → DriveEvent
  closed : (peer_id : PeerId) (endpoint cause : Text) → DriveEvent
  relay_client dcutr identify stream autonat upnp : (event : Text) → DriveEvent
  on_mdns : MdnsEvent → DriveEvent
  on_rendezvous : RendezvousEvent → DriveEvent
  outgoing_error : (peer_id error : Text) → DriveEvent
  untold : DriveEvent

-- A field of a logged line.
pub data Field : Type 0 where
  peer : PeerId → Field
  address : Multiaddr → Field
  count : ℕ → Field
  shown : Text → Field

pub data Line : Type 0 where
  info warn : (message : Text) → List Field → Line

abbrev pub log_pairs : Text → List (PeerId × Multiaddr) → List Line
log_pairs message [] = []
log_pairs message ((peer_id, addr) ∷ peers) =
    info message (peer peer_id ∷ address addr ∷ []) ∷ log_pairs message peers

unfoldable pub log_mdns_event : MdnsEvent → List Line
log_mdns_event (mdns_found peers) = log_pairs (codes "mDNS discovered peer") peers
log_mdns_event (mdns_expired peers) = log_pairs (codes "mDNS peer expired") peers

abbrev pub log_rendezvous_event : RendezvousEvent → Line
log_rendezvous_event (registered namespace ttl node) =
    info (codes "rendezvous registration accepted") (shown namespace ∷ shown ttl ∷ peer node ∷ [])
log_rendezvous_event (found registrations node) =
    info (codes "rendezvous discovery result") (count (length registrations) ∷ peer node ∷ [])
log_rendezvous_event (register_failed namespace error node) =
    warn (codes "rendezvous registration failed") (shown namespace ∷ shown error ∷ peer node ∷ [])
log_rendezvous_event (find_failed namespace error node) =
    warn (codes "rendezvous discovery failed") (shown namespace ∷ shown error ∷ peer node ∷ [])
log_rendezvous_event (registration_expired event) =
    info (codes "rendezvous client event") (shown event ∷ [])

abbrev pub log_event : DriveEvent → List Line
log_event (new_listen_addr addr) = info (codes "client listening") (address addr ∷ []) ∷ []
log_event (established peer_id endpoint) =
    info (codes "connection established") (peer peer_id ∷ shown endpoint ∷ []) ∷ []
log_event (closed peer_id endpoint cause) =
    warn (codes "connection closed") (peer peer_id ∷ shown endpoint ∷ shown cause ∷ []) ∷ []
log_event (relay_client event) = info (codes "relay client event") (shown event ∷ []) ∷ []
log_event (dcutr event) = info (codes "dcutr event") (shown event ∷ []) ∷ []
log_event (identify event) = info (codes "identify event") (shown event ∷ []) ∷ []
log_event (stream event) = info (codes "stream event") (shown event ∷ []) ∷ []
log_event (autonat event) = info (codes "autonat event") (shown event ∷ []) ∷ []
log_event (upnp event) = info (codes "upnp event") (shown event ∷ []) ∷ []
log_event (on_mdns event) = log_mdns_event event
log_event (on_rendezvous event) = log_rendezvous_event event ∷ []
log_event (outgoing_error peer_id error) =
    warn (codes "outgoing connection error") (shown peer_id ∷ shown error ∷ []) ∷ []
log_event untold = []

-- The message that the loop fails with when the swarm's stream ends.
abbrev pub stream_ended : Text
stream_ended = codes "client swarm stream ended unexpectedly"

unfoldable pub drive_client_swarm : List DriveEvent → Result Text (Unit {0}) × List Line
unfolding log_mdns_event
drive_client_swarm [] = (err stream_ended, [])
drive_client_swarm (event ∷ events) =
    let (result, lines) = drive_client_swarm events in (result, log_event event ++ lines)

-- What the loop warns of.
abbrev pub is_failure : DriveEvent → Bool
is_failure (closed peer_id endpoint cause) = true
is_failure (on_rendezvous (register_failed namespace error node)) = true
is_failure (on_rendezvous (find_failed namespace error node)) = true
is_failure (outgoing_error peer_id error) = true
is_failure event = false

abbrev pub warnings : List Line → ℕ
warnings [] = 0
warnings (warn message fields ∷ lines) = suc (warnings lines)
warnings (info message fields ∷ lines) = warnings lines

abbrev pub failures : List DriveEvent → ℕ
failures [] = 0
failures (event ∷ events) =
    let rest = failures events in if is_failure event then suc rest else rest

warnings-append : (xs ys : List Line) → warnings (xs ++ ys) ≡ warnings xs + warnings ys
warnings-append [] ys = omega arith
warnings-append (warn m fs ∷ xs) ys = omega (arith, warnings-append xs ys)
warnings-append (info m fs ∷ xs) ys = warnings-append xs ys

warnings-pairs : (m : Text) (peers : List (PeerId × Multiaddr)) → warnings (log_pairs m peers) ≡ 0
warnings-pairs m [] = refl
warnings-pairs m (p ∷ peers) = warnings-pairs m peers

warnings-event :
    (event : DriveEvent) → warnings (log_event event) ≡ (if is_failure event then 1 else 0)
unfolding log_mdns_event
warnings-event (on_mdns (mdns_found peers)) = warnings-pairs _ peers
warnings-event (on_mdns (mdns_expired peers)) = warnings-pairs _ peers
warnings-event (on_rendezvous (registered n t p)) = refl
warnings-event (on_rendezvous (found rs p)) = refl
warnings-event (on_rendezvous (register_failed n e p)) = refl
warnings-event (on_rendezvous (find_failed n e p)) = refl
warnings-event (on_rendezvous (registration_expired e)) = refl
warnings-event (new_listen_addr a) = refl
warnings-event (established p e) = refl
warnings-event (closed p e c) = refl
warnings-event (relay_client e) = refl
warnings-event (dcutr e) = refl
warnings-event (identify e) = refl
warnings-event (stream e) = refl
warnings-event (autonat e) = refl
warnings-event (upnp e) = refl
warnings-event (outgoing_error p e) = refl
warnings-event untold = refl

counted :
    (b : Bool) (m n rest : ℕ)
    → m ≡ (if b then 1 else 0)
    → n ≡ rest
    → m + n ≡ (if b then suc rest else rest)
counted true m n rest h e = omega (arith, h, e)
counted false m n rest h e = omega (arith, h, e)

-- Whatever the swarm reports behind a session, the loop goes on to the end of the swarm's stream,
-- where it fails, and it has warned once of each connection that closed or could not be made and of
-- each failure at the rendezvous point, and of nothing else.
pub drive_client_swarm-warnings :
    (events : List DriveEvent)
    → ((drive_client_swarm events).0 ≡ err stream_ended)
      × (warnings (drive_client_swarm events).1 ≡ failures events)
unfolding drive_client_swarm
drive_client_swarm-warnings [] = (refl, refl)
drive_client_swarm-warnings (event ∷ events) =
    let (ended, warned) = drive_client_swarm-warnings events in
    (
      ended,
      warnings-append (log_event event) (drive_client_swarm events).1
          ∙ counted (is_failure event) (warnings (log_event event))
              (warnings (drive_client_swarm events).1) (failures events) (warnings-event event)
              warned,
    )
