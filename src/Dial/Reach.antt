-- ===== src/Dial/Reach.antt =====
-- Whom a dialler reaches.
use mathlib.Core.Path.{subst}
use sape.Prelude.{
  ◌+◌, ◌≡◌, refl, sym, ap, ◌∙◌, inl, inr, Bool, false, Option, none, some, List, [], ◌∷◌, ◌++◌,
}
use sape.Prelude.Result.{Result, ok, err, ok_or, map_err, Result-cases}
use sape.Prelude.Exec.{match_result, continue-done}
use sape.Text.{Text}
use sape.Address.{
  PeerId, Multiaddr, AddressError, relay_base_from_circuit_address, peer_id_from_multiaddr,
}
use sape.Target.{DialTarget, mdns, relay_circuit, pairing_code}
use sape.Swarm.{
  SwarmEvent, connection_established, discovered, stream_end, Swarm, SwarmError, ended_unexpectedly,
  failed, never, deadline, Registration, dial, connect_and_identify, wait_for_peer_connection,
  identify_round, wait_for_mdns_and_connect, wait_for_rendezvous_discovery, peer_dial_timeout,
  peer_dial_timed_out, rendezvous_timed_out, relay_connect_timeout, relay_connect_timed_out,
}
use sape.Swarm.Waits.{timely, Heard, wait_for_peer_connection_iff}
use sape.Swarm.Relay.{dial_taken, dial_refused}
use sape.Swarm.Found.{Heard-later, wait_loop-IsFound}
use sape.Swarm.Discovery.{
  NoLater-never, dial-keeps, wait_for_mdns_and_connect_sound, wait_for_rendezvous_discovery_sound,
}
use sape.Dial.{
  Setup, SetupError, swarm_error, relay_address_required, missing_relay_peer_id, bad_target,
  invalid_pairing_code, resolve_target, resolve_circuit, resolve_mdns, resolve_code, ask_rendezvous,
}

-- Whatever is reported in time to the second swarm was to be reported to the first.
abbrev Follows : Swarm → Swarm → Type 0
Follows w w' =
    (x : SwarmEvent) → Heard x (timely never w'.arrivals) → Heard x (timely never w.arrivals)

identify-ends : (st : Bool × Bool) → identify_round st stream_end ≡ failed ended_unexpectedly
identify-ends (learned, told) = refl

connect-Follows :
    (accepts : Multiaddr → Result Text (Unit {0})) (addr : Multiaddr) (w w' : Swarm)
    → connect_and_identify accepts addr w ≡ (ok tt, w')
    → Follows w w'
connect-Follows accepts addr w w' h = elim (Result-cases (accepts addr)) [
  | inl (u, taken) ↦
      let d = deadline (w.now + relay_connect_timeout) relay_connect_timed_out in
      let f =
        wait_loop-IsFound identify_round d identify-ends (false, false) w.now
          (w.dialed ++ addr ∷ []) w.arrivals tt w' (sym (dial_taken accepts addr w taken) ∙ h) in
      λ x g. f.left never x (NoLater-never d) g
  | inr (e, refused) ↦ cc (sym (dial_refused accepts addr w e refused) ∙ h)
]

dial-Follows :
    (accepts : Multiaddr → Result Text (Unit {0})) (addr : Multiaddr) (w w' : Swarm)
    → dial accepts addr w ≡ (ok tt, w')
    → Follows w w'
dial-Follows accepts addr w w' h =
    let kept = dial-keeps addr (accepts addr) w w' h in
    λ x g. subst (λ xs. Heard x (timely never xs)) kept.0 g

on_swarm-ok :
    {A : Type 0} (r : Result SwarmError A × Swarm) (s s' : Setup) (a : A)
    → ◌≡◌ {A = Result SetupError A × Setup}
        (match_result r
          (λ a w. (ok a, record s { swarm = w }))
          (λ e w. (err (swarm_error e), record s { swarm = w })))
        (ok a, s')
    → r ≡ (ok a, s'.swarm)
on_swarm-ok (ok b, w) s s' a h =
    let swarm = ap (λ r. r.1.swarm) h in cc (value (ap (λ r. r.0) h), swarm)
  where
    value : {A : Type 0} {a b : A} → ◌≡◌ {A = Result SetupError A} (ok b) (ok a) → b ≡ a
    value h = cc
on_swarm-ok (err e, w) s s' a h = cc

lift-ok :
    {E A S : Type 0} (r : Result E A) (s s' : S) (a : A)
    → ◌≡◌ {A = Result E A × S} (r, s) (ok a, s')
    → (r ≡ ok a) × (s ≡ s')
lift-ok r s s' a h = (ap (λ x. x.0) h, ap (λ x. x.1) h)

bad_target-ok :
    {A : Type 0} (r : Result AddressError A) (a : A) → map_err bad_target r ≡ ok a → r ≡ ok a
bad_target-ok (ok b) a h = cc
bad_target-ok (err e) a h = cc

ok_or-some : {A : Type 0} (o : Option A) (e : SetupError) (a : A) → ok_or o e ≡ ok a → o ≡ some a
ok_or-some none e a h = cc
ok_or-some (some b) e a h = cc

id_of : {p q : PeerId} → ◌≡◌ {A = Result SetupError PeerId} (ok p) (ok q) → p ≡ q
id_of h = cc

-- An action on the swarm asks for no discovery.
on_swarm-asked :
    {A : Type 0} (r : Result SwarmError A × Swarm) (s s' : Setup) (a : A)
    → ◌≡◌ {A = Result SetupError A × Setup}
        (match_result r
          (λ a w. (ok a, record s { swarm = w }))
          (λ e w. (err (swarm_error e), record s { swarm = w })))
        (ok a, s')
    → s'.asked ≡ s.asked
on_swarm-asked (ok b, w) s s' a h = sym (ap (λ r. r.1.asked) h)
on_swarm-asked (err e, w) s s' a h = sym (ap (λ r. r.1.asked) h)

abbrev pub Questions : Type 0
Questions = List (Text × PeerId)

-- The peer is the one that the target names, given what the swarm reports. For a code, it is the first
-- registration that a rendezvous point reports, and that point is the relay of the command line, which
-- was asked for the registrations under this code; nothing else was asked of a point.
abbrev pub Named :
    DialTarget → Option Multiaddr → (before after : Questions) → List SwarmEvent → PeerId → Type 0
Named (mdns p) relay before after events peer = (p ≡ peer) × (after ≡ before)
Named (relay_circuit addr) relay before after events peer =
    (base : Multiaddr) × ((relay_base_from_circuit_address addr ≡ ok (base, peer))
      × (after ≡ before))
Named (pairing_code code) relay before after events peer =
    (base : Multiaddr) × ((point : PeerId) × ((relay ≡ some base)
        × ((peer_id_from_multiaddr base ≡ some point)
            × ((after ≡ before ++ (code, point) ∷ [])
                × ((first : Registration) × ((others : List Registration) × (Heard
                          (discovered (first ∷ others) point) events
                        × (first.peer_id ≡ peer))))))))

-- What `resolve_target` promises of the peer that it gives.
abbrev pub IsReached :
    DialTarget → Option Multiaddr → (before after : Questions) → List SwarmEvent → PeerId → Type 0
IsReached target relay before after events peer =
    Heard (connection_established peer) events × Named target relay before after events peer

module _ (accepts : Multiaddr → Result Text (Unit {0}))
    (namespace_new : Text → Result Text (Unit {0})) (relay : Option Multiaddr) (peer : PeerId)
    (s t : Setup) where
  mdns_sound :
      (p : PeerId)
      → resolve_mdns accepts namespace_new p s ≡ (ok peer, t)
      → IsReached (mdns p) relay s.asked t.asked (timely never s.swarm.arrivals) peer
  mdns_sound p h =
      let (u, (s', (waited, last))) = continue-done _ _ peer t h in
      let same = id_of (ap (λ r. r.0) last) in
      let kept : t.asked ≡ s.asked =
        sym (ap (λ r. r.1.asked) last)
        ∙ on_swarm-asked (wait_for_mdns_and_connect accepts p s.swarm) s s' u waited in
      let reached = wait_for_mdns_and_connect_sound accepts p s.swarm (
        ap (λ r. r.0) (on_swarm-ok (wait_for_mdns_and_connect accepts p s.swarm) s s' tt waited)) in
      (
        subst (λ q. Heard (connection_established q) (timely never s.swarm.arrivals)) same reached,
        (same, kept),
      )

  circuit_sound :
      (addr : Multiaddr)
      → resolve_circuit accepts namespace_new addr s ≡ (ok peer, t)
      → IsReached (relay_circuit addr) relay s.asked t.asked (timely never s.swarm.arrivals) peer
  circuit_sound addr h =
      let ((base, q), (s1, (resolved, h1))) = continue-done _ _ peer t h in
      let (parsed, stays) = lift-ok _ s s1 (base, q) resolved in
      let (u2, (s2, (joined, h2))) = continue-done _ _ peer t h1 in
      let (u3, (s3, (dialed, h3))) = continue-done _ _ peer t h2 in
      let (u4, (s4, (waited, h4))) = continue-done _ _ peer t h3 in
      let same = id_of (ap (λ r. r.0) h4) in
      let kept : t.asked ≡ s.asked =
        sym (ap (λ r. r.1.asked) h4)
        ∙ on_swarm-asked (wait_for_peer_connection q s3.swarm) s3 s4 u4 waited
        ∙ on_swarm-asked (dial accepts addr s2.swarm) s2 s3 u3 dialed
        ∙ on_swarm-asked (connect_and_identify accepts base s1.swarm) s1 s2 u2 joined
        ∙ sym (ap (λ x. x.asked) stays) in
      let limit = deadline (s3.swarm.now + peer_dial_timeout) peer_dial_timed_out in
      let heard =
        (wait_for_peer_connection_iff q s3.swarm).0
          (ap (λ r. r.0) (on_swarm-ok (wait_for_peer_connection q s3.swarm) s3 s4 tt waited)) in
      let at_3 =
        Heard-later limit never (connection_established q) s3.swarm.arrivals (NoLater-never limit)
          heard in
      let at_2 =
        dial-Follows accepts addr s2.swarm s3.swarm
          (on_swarm-ok (dial accepts addr s2.swarm) s2 s3 tt dialed) (connection_established q)
          at_3 in
      let at_1 =
        connect-Follows accepts base s1.swarm s2.swarm
          (on_swarm-ok (connect_and_identify accepts base s1.swarm) s1 s2 tt joined)
          (connection_established q) at_2 in
      let at_0 =
        subst (λ x. Heard (connection_established q) (timely never x.swarm.arrivals)) (sym stays)
          at_1 in
      (
        subst (λ p. Heard (connection_established p) (timely never s.swarm.arrivals)) same at_0,
        (
          base,
          (
            bad_target-ok (relay_base_from_circuit_address addr) (base, peer)
                (subst
                  (λ p. map_err bad_target (relay_base_from_circuit_address addr) ≡ ok (base, p))
                  same parsed),
            kept,
          ),
        ),
      )

  -- The answer is that to the question for this code.
  asked :
      (code : Text) (point : PeerId) (s3 : Setup) (r : Result SetupError (Unit {0}))
      → ask_rendezvous accepts namespace_new code point r s3 ≡ (ok peer, t)
      → (wait_for_rendezvous_discovery accepts point s3.swarm ≡ (ok peer, t.swarm))
        × (t.asked ≡ s3.asked ++ (code, point) ∷ [])
  asked code point s3 (ok u) h =
      let answer = wait_for_rendezvous_discovery accepts point s3.swarm in
      let s4 = record s3 { asked = s3.asked ++ (code, point) ∷ [] } in
      (on_swarm-ok answer s4 t peer h, on_swarm-asked answer s4 t peer h)
  asked code point s3 (err e) h = cc (ap (λ r. r.0) h)

  code_sound :
      (code : Text)
      → resolve_code accepts namespace_new relay code s ≡ (ok peer, t)
      → IsReached (pairing_code code) relay s.asked t.asked (timely never s.swarm.arrivals) peer
  code_sound code h =
      let (base, (s1, (given, h1))) = continue-done _ _ peer t h in
      let (based, stays1) = lift-ok _ s s1 base given in
      let (point, (s2, (pointed, h2))) = continue-done _ _ peer t h1 in
      let (named, stays2) = lift-ok _ s1 s2 point pointed in
      let (u3, (s3, (joined, h3))) = continue-done _ _ peer t h2 in
      let follows : Follows s.swarm s3.swarm = λ x g.
        subst (λ y. Heard x (timely never y.swarm.arrivals)) (sym (stays1 ∙ stays2))
          (connect-Follows accepts base s2.swarm s3.swarm
            (on_swarm-ok (connect_and_identify accepts base s2.swarm) s2 s3 u3 joined) x g) in
      let limit = deadline (s3.swarm.now + peer_dial_timeout) rendezvous_timed_out in
      let (waited, question) =
        asked code point s3 (map_err invalid_pairing_code (namespace_new code)) h3 in
      let found =
        wait_for_rendezvous_discovery_sound accepts point peer s3.swarm (ap (λ r. r.0) waited) in
      let kept : s3.asked ≡ s.asked =
        on_swarm-asked (connect_and_identify accepts base s2.swarm) s2 s3 u3 joined
        ∙ sym (ap (λ x. x.asked) (stays1 ∙ stays2)) in
      let before : (x : SwarmEvent)
          → Heard x (timely limit s3.swarm.arrivals)
          → Heard x (timely never s.swarm.arrivals) =
        λ x g. follows x (Heard-later limit never x s3.swarm.arrivals (NoLater-never limit) g) in
      (
        before (connection_established peer) found.connected,
        (
          base,
          (
            point,
            (
              ok_or-some relay relay_address_required base based,
              (
                ok_or-some (peer_id_from_multiaddr base) missing_relay_peer_id point named,
                (
                  question ∙ ap (λ x. x ++ (code, point) ∷ []) kept,
                  (
                    found.first,
                    (
                      found.others,
                      (
                        before (discovered (found.first ∷ found.others) point) found.reported,
                        found.named,
                      ),
                    ),
                  ),
                ),
              ),
            ),
          ),
        ),
      )

-- A dialler resolves its target only to a peer that the swarm reports a connection to, and that is the
-- one the target names: the mDNS target's own peer, the listener at the end of a circuit address, or
-- the first registration that the relay of the command line reports, when that relay has been asked
-- for the registrations under the code. It asks that one question for a code, and no question for
-- another target.
pub resolve_target_sound :
    (accepts : Multiaddr → Result Text (Unit {0})) (namespace_new : Text → Result Text (Unit {0}))
    (target : DialTarget) (relay : Option Multiaddr) (peer : PeerId) (s t : Setup)
    → resolve_target accepts namespace_new target relay s ≡ (ok peer, t)
    → IsReached target relay s.asked t.asked (timely never s.swarm.arrivals) peer
unfolding resolve_target
resolve_target_sound accepts namespace_new (mdns p) relay peer s t h =
    mdns_sound accepts namespace_new relay peer s t p h
resolve_target_sound accepts namespace_new (relay_circuit addr) relay peer s t h =
    circuit_sound accepts namespace_new relay peer s t addr h
resolve_target_sound accepts namespace_new (pairing_code code) relay peer s t h =
    code_sound accepts namespace_new relay peer s t code h
