-- ===== src/Swarm/Forever.antt =====
-- When the wait for a peer by mDNS does not end.
use sape.Prelude.{
  ℕ, ◌+◌, ◌≡◌, refl, sym, ap, ◌∙◌, ◌≢◌, ◌↔◌, ◌⊎◌, inl, inr, Option, none, some, List, [], ◌∷◌,
  arith, Bool-cases, Option-cases, All,
}
use mathlib.Core.Path.{subst}
use sape.Prelude.Result.{Result, ok, err}
use sape.Prelude.Exec.{continue}
use sape.Text.{Text, text_eq, text_eq_iff}
use sape.Address.{PeerId, Multiaddr}
use sape.Swarm.{
  SwarmEvent, identify_sent, identify_received, connection_established, mdns_discovered, discovered,
  discover_failed, another_event, stream_end, SwarmError, waits_forever, Arrival, Swarm, never,
  Round, more, done, failed, later, wait, wait_loop, announced, mdns_round, finish_mdns, dial,
  wait_for_peer_connection, peer_dial_timeout, wait_for_mdns_and_connect,
}
use sape.Swarm.Waits.{wait-more, wait-done, wait-failed}
use sape.Swarm.InTime.{continue-EndsBy, clock, error_of}
use sape.Swarm.InTime.Actions.{dial-ends, wait_for_peer_connection-ends}

-- The event says nothing of the peer: it is no announcement of it, no connection to it, and not the
-- end of the swarm's stream.
abbrev pub IsBeside : PeerId → SwarmEvent → Type 0
IsBeside p stream_end = ⊥
IsBeside p (mdns_discovered peers) = announced p peers ≡ none
IsBeside p (connection_established q) = q ≢ p
IsBeside p e = Unit

-- The round ends the wait, with an address or an error of the code.
abbrev Ends : Round (Unit {0}) (Option Multiaddr) → Type 0
Ends (more u) = ⊥
Ends (done a) = Unit
Ends (failed x) = x ≢ waits_forever

module _ (p : PeerId) where
  round_told :
      (e : SwarmEvent)
      → (IsBeside p e × (mdns_round p tt e ≡ more tt))
        ⊎ ((¬ IsBeside p e) × Ends (mdns_round p tt e))
  round_told stream_end = inr ((λ b. b), (λ h. cc))
  round_told (mdns_discovered peers) = elim (Option-cases (announced p peers)) [
    | inl none_there ↦ inl (none_there, rw (none_there, mdns_round) refl)
    | inr (addr, there) ↦
        let found : mdns_round p tt (mdns_discovered peers) ≡ done (some addr) =
          rw (there, mdns_round) refl in
        inr ((λ h. cc (h, there)), subst Ends (sym found) tt)
  ]
  round_told (connection_established q) = elim (Bool-cases (text_eq q p)) [
    | inl same ↦ rw same (inr ((λ b. b ((text_eq_iff q p).0 same)), tt))
    | inr other ↦ rw other (inl ((λ e. cc ((text_eq_iff q p).1 e, other)), refl))
  ]
  round_told (identify_sent q) = inl (tt, refl)
  round_told (identify_received q) = inl (tt, refl)
  round_told (discovered rs n) = inl (tt, refl)
  round_told (discover_failed n) = inl (tt, refl)
  round_told another_event = inl (tt, refl)

  abbrev pub AllBeside : List Arrival → Type 0
  AllBeside = All (λ a. IsBeside p a.1)

  ended-known :
      (t : ℕ) (e : SwarmEvent) (rest : List Arrival) (now : ℕ) (dialed : List Multiaddr)
      (r : Round (Unit {0}) (Option Multiaddr))
      → mdns_round p tt e ≡ r
      → Ends r
      → (wait_loop (mdns_round p) never tt now dialed ((t, e) ∷ rest)).0 ≢ err waits_forever
  ended-known t e rest now dialed (more u) h ends f = ends
  ended-known t e rest now dialed (done a) h ends f =
      cc (ap (λ r. r.0) (wait-done (mdns_round p) never tt now dialed t e rest refl a h), f)
  ended-known t e rest now dialed (failed x) h ends f = ends (
      error_of (
        sym (ap (λ r. r.0) (wait-failed (mdns_round p) never tt now dialed t e rest refl x h)) ∙ f))

  mdns_loop_iff :
      (arrivals : List Arrival) (now : ℕ) (dialed : List Multiaddr)
      → ((wait_loop (mdns_round p) never tt now dialed arrivals).0 ≡ err waits_forever)
        ↔ AllBeside arrivals
  unfolding wait_loop
  mdns_loop_iff [] now dialed = ((λ h. tt), (λ h. refl))
  mdns_loop_iff ((t, e) ∷ rest) now dialed = elim (round_told e) [
    | inl (beside, passes) ↦
        let later_on = mdns_loop_iff rest (later now t) dialed in
        rw (wait-more (mdns_round p) never tt now dialed t e rest refl tt passes)
          ((λ h. (beside, later_on.0 h)), (λ h. later_on.1 h.1))
    | inr (not_beside, ends) ↦ (
      (λ h. absurd (ended-known t e rest now dialed (mdns_round p tt e) refl ends h)),
      (λ h. absurd (not_beside h.0)),
    )
  ]

module _ (accepts : Multiaddr → Result Text (Unit {0})) (p : PeerId) where
  finish_mdns-known :
      (found : Option Multiaddr) (w : Swarm) → (finish_mdns accepts p found w).0 ≢ err waits_forever
  finish_mdns-known none w = λ h. cc
  finish_mdns-known (some addr) w =
      (continue-EndsBy clock waits_forever w.now (w.now + peer_dial_timeout) (dial accepts addr w)
        (λ u. wait_for_peer_connection p) (dial-ends accepts addr w) (omega arith)
        (λ u w' le.
          let ends = wait_for_peer_connection-ends p w' in (ends.0, omega (arith, le, ends.1)))).0

  -- The wait for a peer by mDNS does not end exactly when the swarm reports nothing of that peer, and
  -- no end of its stream.
  pub wait_for_mdns_and_connect-forever_iff :
      (w : Swarm)
      → ((wait_for_mdns_and_connect accepts p w).0 ≡ err waits_forever) ↔ AllBeside p w.arrivals
  unfolding wait_for_mdns_and_connect
  wait_for_mdns_and_connect-forever_iff w = through (wait (mdns_round p) never tt w) refl
    where
      through :
          (r : Result SwarmError (Option Multiaddr) × Swarm)
          → wait (mdns_round p) never tt w ≡ r
          → ((continue r (finish_mdns accepts p)).0 ≡ err waits_forever) ↔ AllBeside p w.arrivals
      through (ok found, w') h = (
        (λ f. absurd (finish_mdns-known found w' f)),
        (λ b. cc ((mdns_loop_iff p w.arrivals w.now w.dialed).1 b, ap (λ r. r.0) h)),
      )
      through (err e, w') h = (
        (λ f.
            (mdns_loop_iff p w.arrivals w.now w.dialed).0 (ap (λ r. r.0) h ∙ ap err (error_of f))),
        (λ b.
            ap err
              (error_of (sym (ap (λ r. r.0) h) ∙ (mdns_loop_iff p w.arrivals w.now w.dialed).1 b))),
      )
