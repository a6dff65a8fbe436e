-- ===== src/Swarm/Waits.antt =====
-- The waits for a relay and for a peer, against what the swarm reports in time.
use sape.Prelude.{
  ℕ, ◌+◌, ◌≡◌, refl, ap, ◌≢◌, ◌↔◌, ◌⊎◌, inl, inr, Bool, true, false, List, [], ◌∷◌, if◌then◌else◌,
  Bool-cases,
}
use sape.Prelude.Result.{ok, err}
use sape.Text.{text_eq, text_eq_iff}
use sape.Address.{PeerId, Multiaddr}
use sape.Swarm.{
  SwarmEvent, SwarmError, identify_sent, identify_received, connection_established, mdns_discovered,
  discovered, discover_failed, another_event, stream_end, Arrival, Swarm, Deadline, deadline, late,
  expired, later, until, Round, more, done, failed, wait_loop, ended_unexpectedly, connection_round,
  wait_for_peer_connection, peer_dial_timeout, peer_dial_timed_out,
}

abbrev pub is_end : SwarmEvent → Bool
is_end stream_end = true
is_end _ = false

-- The events that are there in time, up to the end of the stream.
abbrev pub timely : Deadline → List Arrival → List SwarmEvent
timely d [] = []
timely d ((t, e) ∷ rest) =
    let following = timely d rest in if late d t then [] else if is_end e then [] else e ∷ following

abbrev pub Heard : SwarmEvent → List SwarmEvent → Type 0
Heard e [] = ⊥
Heard e (x ∷ xs) = (x ≡ e) ⊎ Heard e xs

peer_of : {p q : PeerId} → connection_established p ≡ connection_established q → p ≡ q
peer_of h = cc

module _ {S A : Type 0} (round : S → SwarmEvent → Round S A) (d : Deadline) (st : S) (now : ℕ)
    (dialed : List Multiaddr) (t : ℕ) (e : SwarmEvent) (rest : List Arrival)
    (l : late d t ≡ false) where
  pub wait-more :
      (st' : S)
      → round st e ≡ more st'
      → wait_loop round d st now dialed ((t, e) ∷ rest)
        ≡ wait_loop round d st' (later now t) dialed rest
  unfolding wait_loop
  wait-more st' h = rw (l, h, wait_loop) refl

  pub wait-done :
      (a : A)
      → round st e ≡ done a
      → wait_loop round d st now dialed ((t, e) ∷ rest)
        ≡ (ok a, record { now = later now t; arrivals = rest; dialed = dialed })
  unfolding wait_loop
  wait-done a h = rw (l, h, wait_loop) refl

  pub wait-failed :
      (x : SwarmError)
      → round st e ≡ failed x
      → wait_loop round d st now dialed ((t, e) ∷ rest)
        ≡ (err x, record { now = later now t; arrivals = rest; dialed = dialed })
  unfolding wait_loop
  wait-failed x h = rw (l, h, wait_loop) refl

pub wait-late :
    {S A : Type 0} (round : S → SwarmEvent → Round S A) (d : Deadline) (st : S) (now : ℕ)
    (dialed : List Multiaddr) (t : ℕ) (e : SwarmEvent) (rest : List Arrival)
    → late d t ≡ true
    → wait_loop round d st now dialed ((t, e) ∷ rest)
      ≡ (err (expired d), record { now = until d now; arrivals = (t, e) ∷ rest; dialed = dialed })
unfolding wait_loop
wait-late round d st now dialed t e rest l = rw (l, wait_loop) refl

module _ (p : PeerId) (d : Deadline) where
  -- What the loop of the wait for the peer comes to on these arrivals.
  abbrev WaitsRight : List Arrival → Type 0
  WaitsRight arrivals =
      (now : ℕ) (dialed : List Multiaddr)
      → ((wait_loop (connection_round p) d tt now dialed arrivals).0 ≡ ok tt)
        ↔ Heard (connection_established p) (timely d arrivals)

  connection_passes :
      (t : ℕ) (e : SwarmEvent) (rest : List Arrival)
      → late d t ≡ false
      → is_end e ≡ false
      → connection_round p tt e ≡ more tt
      → e ≢ connection_established p
      → WaitsRight rest
      → WaitsRight ((t, e) ∷ rest)
  connection_passes t e rest l goes_on passes differs ih now dialed =
      rw (wait-more (connection_round p) d tt now dialed t e rest l tt passes, l, goes_on)
        (
          (λ h. inr ((ih (later now t) dialed).0 h)),
          (λ h. elim h [
            | inl same ↦ absurd (differs same)
            | inr heard ↦ (ih (later now t) dialed).1 heard
          ]),
        )

  connection_event :
      (t : ℕ) (e : SwarmEvent) (rest : List Arrival)
      → late d t ≡ false
      → WaitsRight rest
      → WaitsRight ((t, e) ∷ rest)
  connection_event t (connection_established q) rest l ih = elim (Bool-cases (text_eq q p)) [
    | inl same ↦ λ now dialed.
        let found : connection_round p tt (connection_established q) ≡ done tt = rw same in
        rw
          (
            wait-done (connection_round p) d tt now dialed t (connection_established q) rest l tt
                found,
            l,
          )
          ((λ h. inl (ap connection_established ((text_eq_iff q p).0 same))), (λ h. refl))
    | inr other ↦
        connection_passes t (connection_established q) rest l refl (rw other)
          (λ h. cc ((text_eq_iff q p).1 (peer_of h), other)) ih
  ]
  connection_event t stream_end rest l ih = λ now dialed.
      rw
        (
          wait-failed (connection_round p) d tt now dialed t stream_end rest l ended_unexpectedly
              refl,
          l,
        )
        ((λ h. cc), (λ h. absurd h))
  connection_event t (identify_sent q) rest l ih =
      connection_passes t (identify_sent q) rest l refl refl (λ h. cc) ih
  connection_event t (identify_received q) rest l ih =
      connection_passes t (identify_received q) rest l refl refl (λ h. cc) ih
  connection_event t (mdns_discovered ps) rest l ih =
      connection_passes t (mdns_discovered ps) rest l refl refl (λ h. cc) ih
  connection_event t (discovered rs n) rest l ih =
      connection_passes t (discovered rs n) rest l refl refl (λ h. cc) ih
  connection_event t (discover_failed n) rest l ih =
      connection_passes t (discover_failed n) rest l refl refl (λ h. cc) ih
  connection_event t another_event rest l ih =
      connection_passes t another_event rest l refl refl (λ h. cc) ih

  pub connection_loop_iff : (arrivals : List Arrival) → WaitsRight arrivals
  unfolding wait_loop
  connection_loop_iff [] now dialed = ((λ h. cc), (λ h. absurd h))
  connection_loop_iff ((t, e) ∷ rest) now dialed = elim (Bool-cases (late d t)) [
    | inl l ↦
        rw (wait-late (connection_round p) d tt now dialed t e rest l, l)
          ((λ h. cc), (λ h. absurd h))
    | inr l ↦ connection_event t e rest l (connection_loop_iff rest) now dialed
  ]

-- The wait for a peer succeeds exactly when a connection to that peer is established within 30
-- seconds and before the swarm's stream ends, whatever else is reported before it.
pub wait_for_peer_connection_iff :
    (p : PeerId) (w : Swarm)
    → ((wait_for_peer_connection p w).0 ≡ ok tt)
      ↔ Heard
          (connection_established p)
          (timely (deadline (w.now + peer_dial_timeout) peer_dial_timed_out) w.arrivals)
unfolding wait_for_peer_connection
wait_for_peer_connection_iff p w =
    connection_loop_iff p (deadline (w.now + peer_dial_timeout) peer_dial_timed_out) w.arrivals
      w.now w.dialed
