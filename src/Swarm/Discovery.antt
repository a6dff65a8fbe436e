-- ===== src/Swarm/Discovery.antt =====
-- Finding a peer by mDNS or by a pairing code, up to the connection.
use mathlib.Core.Path.{subst}
use sape.Prelude.{
  ℕ, ◌+◌, ◌≤◌, ◌≡◌, refl, sym, ap, ◌∙◌, inl, inr, Option, none, some, List, [], ◌∷◌, ◌++◌, arith,
  ltb, Bool-cases,
}
use sape.Prelude.Result.{Result, ok, err, Result-cases}
use sape.Prelude.Exec.{continue-ok, ◌>>◌, pure}
use sape.Text.{Text, text_eq, text_eq_iff}
use sape.Address.{PeerId, Multiaddr}
use sape.Swarm.{
  SwarmEvent, SwarmError, ended_unexpectedly, connection_established, mdns_discovered, discovered,
  discover_failed, identify_sent, identify_received, another_event, stream_end, Swarm, Deadline,
  never, deadline, within, Round, done, failed, wait, mdns_round, rendezvous_round, Registration,
  address_of, dial_all, dial, dial_answered, wait_for_peer_connection,
  wait_for_peer_connection_within, wait_for_rendezvous_discovery, wait_for_mdns_and_connect,
  peer_dial_timeout, peer_dial_timed_out, rendezvous_timed_out, finish_mdns,
}
use sape.Swarm.Waits.{timely, Heard, connection_loop_iff}
use sape.Swarm.Found.{NoLater, Heard-later, IsFound, wait_loop-IsFound}

mdns-ends : (p : PeerId) (u : Unit {0}) → mdns_round p u stream_end ≡ failed ended_unexpectedly
mdns-ends p u = refl

rendezvous-ends :
    (p : PeerId) (u : Unit {0}) → rendezvous_round p u stream_end ≡ failed ended_unexpectedly
rendezvous-ends p u = refl

-- What ends the mDNS loop without an address is a connection to the peer.
mdns-none :
    (p : PeerId) (e : SwarmEvent) → mdns_round p tt e ≡ done none → e ≡ connection_established p
mdns-none p (connection_established q) h = elim (Bool-cases (text_eq q p)) [
  | inl same ↦ ap connection_established ((text_eq_iff q p).0 same)
  | inr other ↦ cc (rw other at h)
]
mdns-none p (mdns_discovered ps) h = ground (arith, h)
mdns-none p stream_end h = cc
mdns-none p (identify_sent q) h = cc
mdns-none p (identify_received q) h = cc
mdns-none p (discovered rs n) h = cc
mdns-none p (discover_failed n) h = cc
mdns-none p another_event h = cc

-- What ends the rendezvous loop is a discovery at the rendezvous point, with a first registration.
rendezvous-done :
    (p : PeerId) (e : SwarmEvent) (r : Registration)
    → rendezvous_round p tt e ≡ done r
    → (rs : List Registration) × (e ≡ discovered (r ∷ rs) p)
rendezvous-done p (discovered [] n) r h = ground (arith, h)
rendezvous-done p (discovered (q ∷ rs) n) r h = elim (Bool-cases (text_eq n p)) [
  | inl same ↦ (rs, cc ((text_eq_iff n p).0 same, first (rw same at h)))
  | inr other ↦ cc (rw other at h)
]
  where
    first :
        {S : Type 0} {q r : Registration} → ◌≡◌ {A = Round S Registration} (done q) (done r) → q ≡ r
    first h = cc
rendezvous-done p (discover_failed n) r h = ground (arith, h)
rendezvous-done p stream_end r h = cc
rendezvous-done p (identify_sent q) r h = cc
rendezvous-done p (identify_received q) r h = cc
rendezvous-done p (connection_established q) r h = cc
rendezvous-done p (mdns_discovered ps) r h = cc
rendezvous-done p another_event r h = cc

pub NoLater-never : (d : Deadline) → NoLater d never
NoLater-never d t l = refl

pub dial-keeps :
    (addr : Multiaddr) (r : Result Text (Unit {0})) (w w' : Swarm)
    → dial_answered addr r w ≡ (ok tt, w')
    → (w'.arrivals ≡ w.arrivals) × (w'.now ≡ w.now)
dial-keeps addr (ok u) w w' h = (sym (ap (λ r. r.1.arrivals) h), sym (ap (λ r. r.1.now) h))
dial-keeps addr (err e) w w' h = cc

dial_all-keeps :
    (accepts : Multiaddr → Result Text (Unit {0})) (peer : PeerId) (addresses : List Multiaddr)
    (w : Swarm)
    → ((dial_all accepts peer addresses w).1.arrivals ≡ w.arrivals)
      × ((dial_all accepts peer addresses w).1.now ≡ w.now)
dial_all-keeps accepts peer [] w = (refl, refl)
dial_all-keeps accepts peer (address ∷ addresses) w =
    elim (Result-cases (accepts (address_of peer address))) [
      | inl (u, taken) ↦ rw taken (
          dial_all-keeps accepts peer addresses
            (record w { dialed = w.dialed ++ address_of peer address ∷ [] }))
      | inr (e, refused) ↦ rw refused (dial_all-keeps accepts peer addresses w)
    ]

within-early :
    (now now' : ℕ) (e e' : SwarmError)
    → now ≤ now'
    → NoLater
        (within (deadline (now + peer_dial_timeout) e) (deadline (now' + peer_dial_timeout) e'))
        (deadline (now + peer_dial_timeout) e)
within-early now now' e e' le t l =
    elim (Bool-cases (ltb (now + peer_dial_timeout) (now' + peer_dial_timeout))) [
      | inl earlier ↦ rw earlier at l
      | inr same ↦ ground (arith, rw same at l)
    ]

-- A client that looks for a peer by mDNS gets on only with a connection to that very peer, which
-- the swarm reports before its stream ends.
pub wait_for_mdns_and_connect_sound :
    (accepts : Multiaddr → Result Text (Unit {0})) (p : PeerId) (w : Swarm)
    → (wait_for_mdns_and_connect accepts p w).0 ≡ ok tt
    → Heard (connection_established p) (timely never w.arrivals)
unfolding wait_for_mdns_and_connect wait_for_peer_connection
wait_for_mdns_and_connect_sound accepts p w h =
    let (found, (w', (looped, rest))) =
      continue-ok (wait (mdns_round p) never tt w) (finish_mdns accepts p) tt h in
    finished found w'
      (wait_loop-IsFound (mdns_round p) never (mdns-ends p) tt w.now w.dialed w.arrivals found w'
        looped)
      rest
  where
    finished :
        (found : Option Multiaddr) (w' : Swarm)
        → IsFound (mdns_round p) never w.now w.arrivals found w'
        → (finish_mdns accepts p found w').0 ≡ ok tt
        → Heard (connection_established p) (timely never w.arrivals)
    finished none w' f rest =
        subst (λ e. Heard e (timely never w.arrivals)) (mdns-none p f.event f.ends) f.heard
    finished (some addr) w' f rest =
        let (u, (w2, (taken, waited))) =
          continue-ok (dial accepts addr w') (λ u. wait_for_peer_connection p) tt rest in
        let kept = dial-keeps addr (accepts addr) w' w2 taken in
        let limit = deadline (w2.now + peer_dial_timeout) peer_dial_timed_out in
        let heard = (connection_loop_iff p limit w2.arrivals w2.now w2.dialed).0 waited in
        f.left never (connection_established p) (λ t l. l)
          (subst (λ xs. Heard (connection_established p) (timely never xs)) kept.0
            (Heard-later limit never (connection_established p) w2.arrivals (NoLater-never limit)
              heard))

-- What a pairing code leads to.
pub record IsDiscovered (point peer : PeerId) (events : List SwarmEvent) : Type 0 where
  pub first : Registration
  pub others : List Registration
  pub reported : Heard (discovered (first ∷ others) point) events
  pub named : first.peer_id ≡ peer
  pub connected : Heard (connection_established peer) events

-- A client that resolves a pairing code gets on only with the peer of the first registration that
-- the rendezvous point it asked reported, and with a connection to that peer, both within the same
-- 30 seconds: the limit of the inner wait never extends the outer one.
pub wait_for_rendezvous_discovery_sound :
    (accepts : Multiaddr → Result Text (Unit {0})) (point peer : PeerId) (w : Swarm)
    → (wait_for_rendezvous_discovery accepts point w).0 ≡ ok peer
    → IsDiscovered point peer
        (timely (deadline (w.now + peer_dial_timeout) rendezvous_timed_out) w.arrivals)
unfolding wait_for_rendezvous_discovery
wait_for_rendezvous_discovery_sound accepts point peer w h =
    let limit = deadline (w.now + peer_dial_timeout) rendezvous_timed_out in
    let (r, (w1, (looped, rest))) =
      continue-ok (wait (rendezvous_round point) limit tt w)
        (λ r. (do
          dial_all accepts r.peer_id r.addresses
          wait_for_peer_connection_within limit r.peer_id
          pure r.peer_id))
        peer h in
    let f =
      wait_loop-IsFound (rendezvous_round point) limit (rendezvous-ends point) tt w.now w.dialed
        w.arrivals r w1 looped in
    let (u, (w2, (dialed_all, rest'))) =
      continue-ok (dial_all accepts r.peer_id r.addresses w1)
        (λ u. (do wait_for_peer_connection_within limit r.peer_id; pure r.peer_id)) peer rest in
    let (v, (w3, (waited, named))) =
      continue-ok (wait_for_peer_connection_within limit r.peer_id w2) (λ v. pure r.peer_id) peer
        rest' in
    let kept = dial_all-keeps accepts r.peer_id r.addresses w1 in
    let arrivals = sym (ap (λ x. x.1.arrivals) dialed_all) ∙ kept.0 in
    let time = sym (ap (λ x. x.1.now) dialed_all) ∙ kept.1 in
    let inner = within limit (deadline (w2.now + peer_dial_timeout) peer_dial_timed_out) in
    let early =
      within-early w.now w2.now rendezvous_timed_out peer_dial_timed_out
        (subst (λ n. w.now ≤ n) (sym time) f.time) in
    let heard = Heard-later inner limit (connection_established r.peer_id) w2.arrivals early (
      (connection_loop_iff r.peer_id inner w2.arrivals w2.now w2.dialed).0
        (ap (λ x. x.0) waited)) in
    let at_w1 =
      subst (λ xs. Heard (connection_established r.peer_id) (timely limit xs)) arrivals heard in
    let (rs, event) = rendezvous-done point f.event r f.ends in
    record {
      first = r;
      others = rs;
      reported = subst (λ e. Heard e (timely limit w.arrivals)) event f.heard;
      named = same_peer named;
      connected =
          subst (λ q. Heard (connection_established q) (timely limit w.arrivals)) (same_peer named)
            (f.left limit (connection_established r.peer_id) (λ t l. l) at_w1);
    }
  where
    same_peer : {p q : PeerId} → ◌≡◌ {A = Result SwarmError PeerId} (ok p) (ok q) → p ≡ q
    same_peer h = cc
