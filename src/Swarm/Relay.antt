-- ===== src/Swarm/Relay.antt =====
-- The wait for a relay, which is over when identify was sent and received.
use sape.Prelude.{
  ℕ, ◌+◌, ◌≡◌, refl, ap, ◌∙◌, ◌≢◌, ◌↔◌, ◌⊎◌, inl, inr, Bool, true, false, ◌&&◌, List, [], ◌∷◌, ◌++◌,
  Bool-cases,
}
use sape.Prelude.Result.{Result, ok, err, Result-cases}
use sape.Text.{Text}
use sape.Address.{PeerId, Multiaddr}
use sape.Swarm.{
  SwarmEvent, dial_failed, dial_answered, wait_for_identify, identify_sent, identify_received,
  connection_established, mdns_discovered, discovered, discover_failed, another_event, stream_end,
  Arrival, Swarm, Deadline, deadline, late, later, more, done, wait_loop, ended_unexpectedly,
  identify_round, continue_until_both, connect_and_identify, relay_connect_timeout,
  relay_connect_timed_out,
}
use sape.Prelude.Exec.{◌>>◌}
use sape.Swarm.Waits.{is_end, timely, Heard, wait-more, wait-done, wait-failed, wait-late}

-- Such an event of some peer.
abbrev pub HeardFrom : (PeerId → SwarmEvent) → List SwarmEvent → Type 0
HeardFrom event events = (peer : PeerId) × Heard (event peer) events

-- What is still to be heard, given the two flags.
abbrev Wants : Bool → Bool → List SwarmEvent → Type 0
Wants learned told events =
    ((learned ≡ true) ⊎ HeardFrom identify_received events)
    × ((told ≡ true) ⊎ HeardFrom identify_sent events)

Heard-other :
    (x : SwarmEvent) (event : PeerId → SwarmEvent) (events : List SwarmEvent)
    → ((q : PeerId) → x ≢ event q)
    → HeardFrom event (x ∷ events) ↔ HeardFrom event events
Heard-other x event events differs = (
  (λ (q, h). elim h [ inl same ↦ absurd (differs q same) | inr heard ↦ (q, heard) ]),
  (λ (q, h). (q, inr h)),
)

or_iff : {A B B' : Type 0} → B ↔ B' → (A ⊎ B) ↔ (A ⊎ B')
or_iff i = (
  (λ h. elim h [ inl a ↦ inl a | inr b ↦ inr (i.0 b) ]),
  (λ h. elim h [ inl a ↦ inl a | inr b ↦ inr (i.1 b) ]),
)

Wants-other :
    (learned told : Bool) (x : SwarmEvent) (events : List SwarmEvent)
    → ((q : PeerId) → x ≢ identify_received q)
    → ((q : PeerId) → x ≢ identify_sent q)
    → Wants learned told (x ∷ events) ↔ Wants learned told events
Wants-other learned told x events r s =
    let received = or_iff {A = learned ≡ true} (Heard-other x identify_received events r) in
    let sent = or_iff {A = told ≡ true} (Heard-other x identify_sent events s) in
    ((λ h. (received.0 h.0, sent.0 h.1)), (λ h. (received.1 h.0, sent.1 h.1)))

Wants-sent :
    (learned told : Bool) (q : PeerId) (events : List SwarmEvent)
    → Wants learned told (identify_sent q ∷ events) ↔ Wants learned true events
Wants-sent learned told q events =
    let received =
      or_iff {A = learned ≡ true}
        (Heard-other (identify_sent q) identify_received events (λ r h. cc)) in
    ((λ h. (received.0 h.0, inl refl)), (λ h. (received.1 h.0, inr (q, inl refl))))

Wants-received :
    (learned told : Bool) (q : PeerId) (events : List SwarmEvent)
    → Wants learned told (identify_received q ∷ events) ↔ Wants true told events
Wants-received learned told q events =
    let sent =
      or_iff {A = told ≡ true}
        (Heard-other (identify_received q) identify_sent events (λ r h. cc)) in
    ((λ h. (inl refl, sent.0 h.1)), (λ h. (inr (q, inl refl), sent.1 h.1)))

nothing_wanted : (learned told : Bool) → (learned && told) ≡ false → Wants learned told [] → ⊥
nothing_wanted learned told both (inl a, inl b) = cc
nothing_wanted learned told both (inr (q, a), b) = a
nothing_wanted learned told both (inl a, inr (q, b)) = b

module _ (d : Deadline) where
  abbrev IdentifiesRight : List Arrival → Type 0
  IdentifiesRight arrivals =
      (learned told : Bool) (now : ℕ) (dialed : List Multiaddr)
      → (learned && told) ≡ false
      → ((wait_loop identify_round d (learned, told) now dialed arrivals).0 ≡ ok tt)
        ↔ Wants learned told (timely d arrivals)

  -- The round leaves flags with which something is still to be heard.
  identify_passes :
      (t : ℕ) (e : SwarmEvent) (rest : List Arrival) (learned told learned' told' : Bool) (now : ℕ)
      (dialed : List Multiaddr)
      → late d t ≡ false
      → is_end e ≡ false
      → identify_round (learned, told) e ≡ more (learned', told')
      → (learned' && told') ≡ false
      → Wants learned told (e ∷ timely d rest) ↔ Wants learned' told' (timely d rest)
      → IdentifiesRight rest
      → ((wait_loop identify_round d (learned, told) now dialed ((t, e) ∷ rest)).0 ≡ ok tt)
        ↔ Wants learned told (timely d ((t, e) ∷ rest))
  identify_passes t e rest learned told learned' told' now dialed l goes_on passes both' same ih =
      let step = ih learned' told' (later now t) dialed both' in
      rw
        (
          wait-more identify_round d (learned, told) now dialed t e rest l (learned', told') passes,
          l,
          goes_on,
        )
        ((λ h. same.1 (step.0 h)), (λ h. step.1 (same.0 h)))

  identify_ignores :
      (t : ℕ) (e : SwarmEvent) (rest : List Arrival)
      → late d t ≡ false
      → is_end e ≡ false
      → ((learned told : Bool)
          → identify_round (learned, told) e ≡ continue_until_both (learned, told))
      → ((q : PeerId) → e ≢ identify_received q)
      → ((q : PeerId) → e ≢ identify_sent q)
      → IdentifiesRight rest
      → IdentifiesRight ((t, e) ∷ rest)
  identify_ignores t e rest l goes_on keeps r s ih learned told now dialed both =
      let passes : identify_round (learned, told) e ≡ more (learned, told) =
        keeps learned told ∙ rw both in
      identify_passes t e rest learned told learned told now dialed l goes_on passes both
        (Wants-other learned told e (timely d rest) r s) ih

  -- The event after which both flags are set.
  identify_done :
      (t : ℕ) (e : SwarmEvent) (rest : List Arrival) (learned told : Bool) (now : ℕ)
      (dialed : List Multiaddr)
      → late d t ≡ false
      → is_end e ≡ false
      → identify_round (learned, told) e ≡ done tt
      → Wants learned told (e ∷ timely d rest)
      → ((wait_loop identify_round d (learned, told) now dialed ((t, e) ∷ rest)).0 ≡ ok tt)
        ↔ Wants learned told (timely d ((t, e) ∷ rest))
  identify_done t e rest learned told now dialed l goes_on passes wanted =
      rw (wait-done identify_round d (learned, told) now dialed t e rest l tt passes, l, goes_on)
        ((λ h. wanted), (λ h. refl))

  identify_event :
      (t : ℕ) (e : SwarmEvent) (rest : List Arrival)
      → late d t ≡ false
      → IdentifiesRight rest
      → IdentifiesRight ((t, e) ∷ rest)
  identify_event t (identify_sent q) rest l ih false told now dialed both =
      identify_passes t (identify_sent q) rest false told false true now dialed l refl refl refl
        (Wants-sent false told q (timely d rest)) ih
  identify_event t (identify_sent q) rest l ih true told now dialed both =
      identify_done t (identify_sent q) rest true told now dialed l refl refl
        (inl refl, inr (q, inl refl))
  identify_event t (identify_received q) rest l ih learned false now dialed both =
      identify_passes t (identify_received q) rest learned false true false now dialed l refl refl
        refl (Wants-received learned false q (timely d rest)) ih
  identify_event t (identify_received q) rest l ih learned true now dialed both =
      identify_done t (identify_received q) rest learned true now dialed l refl refl
        (inr (q, inl refl), inl refl)
  identify_event t stream_end rest l ih learned told now dialed both =
      rw
        (
          wait-failed identify_round d (learned, told) now dialed t stream_end rest l
              ended_unexpectedly refl,
          l,
        )
        ((λ h. cc), (λ h. absurd (nothing_wanted learned told both h)))
  identify_event t (connection_established q) rest l ih learned told now dialed both =
      identify_ignores t (connection_established q) rest l refl (λ a b. refl) (λ h. cc) (λ h. cc) ih
        learned told now dialed both
  identify_event t (mdns_discovered ps) rest l ih learned told now dialed both =
      identify_ignores t (mdns_discovered ps) rest l refl (λ a b. refl) (λ h. cc) (λ h. cc) ih
        learned told now dialed both
  identify_event t (discovered rs n) rest l ih learned told now dialed both =
      identify_ignores t (discovered rs n) rest l refl (λ a b. refl) (λ h. cc) (λ h. cc) ih learned
        told now dialed both
  identify_event t (discover_failed n) rest l ih learned told now dialed both =
      identify_ignores t (discover_failed n) rest l refl (λ a b. refl) (λ h. cc) (λ h. cc) ih
        learned told now dialed both
  identify_event t another_event rest l ih learned told now dialed both =
      identify_ignores t another_event rest l refl (λ a b. refl) (λ h. cc) (λ h. cc) ih learned told
        now dialed both

  identify_loop_iff : (arrivals : List Arrival) → IdentifiesRight arrivals
  unfolding wait_loop
  identify_loop_iff [] learned told now dialed both =
      ((λ h. cc), (λ h. absurd (nothing_wanted learned told both h)))
  identify_loop_iff ((t, e) ∷ rest) learned told now dialed both = elim (Bool-cases (late d t)) [
    | inl l ↦
        rw (wait-late identify_round d (learned, told) now dialed t e rest l, l)
          ((λ h. cc), (λ h. absurd (nothing_wanted learned told both h)))
    | inr l ↦ identify_event t e rest l (identify_loop_iff rest) learned told now dialed both
  ]

module _ (accepts : Multiaddr → Result Text (Unit {0})) (relay_address : Multiaddr)
    (w : Swarm) where
  pub dial_taken :
      accepts relay_address ≡ ok tt
      → connect_and_identify accepts relay_address w
        ≡ wait_loop identify_round
            (deadline (w.now + relay_connect_timeout) relay_connect_timed_out)
            (false, false)
            w.now
            (w.dialed ++ relay_address ∷ [])
            w.arrivals
  unfolding connect_and_identify
  dial_taken h = ap (λ r. (dial_answered relay_address r >> wait_for_identify) w) h

  pub dial_refused :
      (e : Text)
      → accepts relay_address ≡ err e
      → connect_and_identify accepts relay_address w ≡ (err (dial_failed e), w)
  unfolding connect_and_identify
  dial_refused e h = ap (λ r. (dial_answered relay_address r >> wait_for_identify) w) h

-- A client gets past its relay exactly when libp2p takes the relay's address, and the swarm reports
-- that identify was sent to a peer and that it was received from one, in either order, within 30
-- seconds of the dial and before the swarm's stream ends. The two peers may be any, and need not be
-- the same nor the relay.
pub connect_and_identify_iff :
    (accepts : Multiaddr → Result Text (Unit {0})) (relay_address : Multiaddr) (w : Swarm)
    → ((connect_and_identify accepts relay_address w).0 ≡ ok tt) ↔ (
        (accepts relay_address ≡ ok tt)
        × (HeardFrom identify_received
              (timely (deadline (w.now + relay_connect_timeout) relay_connect_timed_out) w.arrivals)
            × HeardFrom identify_sent (
                timely
                  (deadline (w.now + relay_connect_timeout) relay_connect_timed_out)
                  w.arrivals)))
unfolding connect_and_identify
connect_and_identify_iff accepts relay_address w =
    let d = deadline (w.now + relay_connect_timeout) relay_connect_timed_out in
    let loop =
      identify_loop_iff d w.arrivals false false w.now (w.dialed ++ relay_address ∷ []) refl in
    elim (Result-cases (accepts relay_address)) [
      | inl (u, taken) ↦
          rw (dial_taken accepts relay_address w taken, taken)
            (
              (λ h. (refl, (wanted (loop.0 h).0, wanted (loop.0 h).1))),
              (λ h. loop.1 (inr h.1.0, inr h.1.1)),
            )
      | inr (e, refused) ↦
          rw (dial_refused accepts relay_address w e refused, refused) ((λ h. cc), (λ h. cc h.0))
    ]
  where
    wanted : {A : Type 0} → (false ≡ true) ⊎ A → A
    wanted (inl a) = cc
    wanted (inr b) = b
