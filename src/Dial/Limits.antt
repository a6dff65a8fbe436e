-- ===== src/Dial/Limits.antt =====
-- How long a dialler takes to reach each kind of target.
use sape.Prelude.{ℕ, ◌+◌, ◌≤◌, ◌≡◌, ◌≢◌, Option, none, some, [], ◌∷◌, ◌++◌, arith}
use sape.Prelude.Result.{Result, ok, err, ok_or, map_err}
use sape.Prelude.Exec.{match_result, continue}
use sape.Text.{Text}
use sape.Address.{
  PeerId, Multiaddr, AddressError, relay_base_from_circuit_address, peer_id_from_multiaddr,
}
use sape.Swarm.{
  SwarmError, Swarm, waits_forever, dial, connect_and_identify, wait_for_peer_connection,
  wait_for_rendezvous_discovery, peer_dial_timeout,
}
use sape.Swarm.InTime.{EndsBy, EndsBy-le, continue-EndsBy, clock}
use sape.Swarm.InTime.Actions.{
  dial-ends, connect_and_identify-ends, wait_for_peer_connection-ends,
  wait_for_rendezvous_discovery-ends,
}
use sape.Dial.{
  Setup, SetupError, swarm_error, bad_target, relay_address_required, missing_relay_peer_id,
  invalid_pairing_code, on_swarm, resolve_circuit, ask_rendezvous, resolve_code,
}

abbrev setup_clock : Setup → ℕ
setup_clock s = s.swarm.now

abbrev pub By : ℕ → {A : Type 0} → Result SetupError A × Setup → Type 0
By end r = EndsBy setup_clock (swarm_error waits_forever) end r

on_swarm-ends :
    {A : Type 0} (r : Result SwarmError A × Swarm) (s : Setup) (end : ℕ)
    → EndsBy clock waits_forever end r
    → By end (
        match_result {C = Result SetupError A × Setup} r
          (λ a w. (ok a, record s { swarm = w }))
          (λ e w. (err (swarm_error e), record s { swarm = w })))
on_swarm-ends (ok a, w) s end h = ((λ f. cc), h.1)
on_swarm-ends (err e, w) s end h = ((λ f. h.0 (same f)), h.1)
  where
    same :
        {A B : Type 0} {x y : SwarmError}
        → ◌≡◌ {A = Result SetupError B} (err (swarm_error x)) (err (swarm_error y))
        → ◌≡◌ {A = Result SwarmError A} (err x) (err y)
    same h = cc

step :
    {A B : Type 0} (m end : ℕ) (r : Result SetupError A × Setup)
    (k : A → Setup → Result SetupError B × Setup)
    → By m r
    → m ≤ end
    → ((a : A) (s : Setup) → s.swarm.now ≤ m → By end (k a s))
    → By end (continue r k)
step m end r k = continue-EndsBy setup_clock (swarm_error waits_forever) m end r k

-- An action on the swarm, within a limit that holds from the state it starts in.
on_swarm-within :
    {A : Type 0} (r : Result SwarmError A × Swarm) (s : Setup) (end m : ℕ)
    → EndsBy clock waits_forever m r
    → m ≤ end
    → By end (
        match_result {C = Result SetupError A × Setup} r
          (λ a w. (ok a, record s { swarm = w }))
          (λ e w. (err (swarm_error e), record s { swarm = w })))
on_swarm-within r s end m h le = on_swarm-ends r s end (EndsBy-le clock waits_forever m end r h le)

-- A result without an error of the swarm.
abbrev Plain : {A : Type 0} → Result SetupError A → Type 0
Plain r = r ≢ err (swarm_error waits_forever)

bad_target-Plain : {A : Type 0} (r : Result AddressError A) → Plain (map_err bad_target r)
bad_target-Plain (ok a) f = cc
bad_target-Plain (err e) f = cc

ok_or-Plain :
    {A : Type 0} (o : Option A) (e : SetupError) → e ≢ swarm_error waits_forever → Plain (ok_or o e)
ok_or-Plain none e known f = known (same f)
  where
    same : {A : Type 0} {x y : SetupError} → ◌≡◌ {A = Result SetupError A} (err x) (err y) → x ≡ y
    same h = cc
ok_or-Plain (some a) e known f = cc

-- `RELAY_CONNECT_TIMEOUT` and `PEER_DIAL_TIMEOUT` together
abbrev pub setup_timeout : ℕ
setup_timeout = 60000

module _ (accepts : Multiaddr → Result Text (Unit {0}))
    (namespace_new : Text → Result Text (Unit {0})) where
  pub connected-ends :
      (relay : Multiaddr) (s : Setup) (n : ℕ)
      → s.swarm.now ≤ n
      → By (n + 30000) (on_swarm (connect_and_identify accepts relay) s)
  connected-ends relay s n le =
      on_swarm-within (connect_and_identify accepts relay s.swarm) s (n + 30000)
        (s.swarm.now + 30000) (connect_and_identify-ends accepts relay s.swarm) (omega (arith, le))

  pub circuit-ends :
      (addr : Multiaddr) (s : Setup)
      → By (s.swarm.now + setup_timeout) (resolve_circuit accepts namespace_new addr s)
  circuit-ends addr s =
      let n = s.swarm.now in
      step n (n + 60000) _ _ (bad_target-Plain (relay_base_from_circuit_address addr), omega arith)
        (omega arith)
        (λ (base, peer) s1 le1.
          step (n + 30000) (n + 60000) (on_swarm (connect_and_identify accepts base) s1) _
            (connected-ends base s1 n le1) (omega arith)
            (λ u s2 le2.
              step (n + 30000) (n + 60000) (on_swarm (dial accepts addr) s2) _
                (on_swarm-within (dial accepts addr s2.swarm) s2 (n + 30000) s2.swarm.now
                  (dial-ends accepts addr s2.swarm) le2)
                (omega arith)
                (λ v s3 le3.
                  step (n + 60000) (n + 60000) (on_swarm (wait_for_peer_connection peer) s3) _
                    (on_swarm-within (wait_for_peer_connection peer s3.swarm) s3 (n + 60000)
                      (s3.swarm.now + peer_dial_timeout)
                      (wait_for_peer_connection-ends peer s3.swarm) (omega (arith, le3)))
                    (omega arith) (λ w s4 le4. ((λ f. cc), le4)))))

  asked-ends :
      (code : Text) (point : PeerId) (end : ℕ) (r : Result SetupError (Unit {0})) (s : Setup)
      → s.swarm.now + peer_dial_timeout ≤ end
      → Plain r
      → By end (ask_rendezvous accepts namespace_new code point r s)
  asked-ends code point end (err e) s le plain = ((λ f. plain (same f)), omega (arith, le))
    where
      same :
          {A B : Type 0} {x y : SetupError}
          → ◌≡◌ {A = Result SetupError B} (err x) (err y)
          → ◌≡◌ {A = Result SetupError A} (err x) (err y)
      same h = cc
  asked-ends code point end (ok u) s le plain =
      on_swarm-within (wait_for_rendezvous_discovery accepts point s.swarm)
        (record s { asked = s.asked ++ (code, point) ∷ [] }) end (s.swarm.now + peer_dial_timeout)
        (wait_for_rendezvous_discovery-ends accepts point s.swarm) le

  invalid-Plain : (r : Result Text (Unit {0})) → Plain (map_err invalid_pairing_code r)
  invalid-Plain (ok u) f = cc
  invalid-Plain (err e) f = cc

  pub code-ends :
      (relay : Option Multiaddr) (code : Text) (s : Setup)
      → By (s.swarm.now + setup_timeout) (resolve_code accepts namespace_new relay code s)
  code-ends relay code s =
      let n = s.swarm.now in
      step n (n + 60000) _ _ (ok_or-Plain relay relay_address_required (λ h. cc), omega arith)
        (omega arith)
        (λ base s1 le1.
          step n (n + 60000) _ _
            (ok_or-Plain (peer_id_from_multiaddr base) missing_relay_peer_id (λ h. cc), le1)
            (omega arith)
            (λ point s2 le2.
              step (n + 30000) (n + 60000) (on_swarm (connect_and_identify accepts base) s2) _
                (connected-ends base s2 n le2) (omega arith)
                (λ u s3 le3.
                  asked-ends code point (n + 60000)
                    (map_err invalid_pairing_code (namespace_new code)) s3 (omega (arith, le3))
                    (invalid-Plain (namespace_new code)))))
