-- ===== src/Swarm/InTime.antt =====
-- How long the waits of a client last.
pub mod Rounds
pub mod Actions
use sape.Prelude.{
  ℕ, ◌+◌, ◌≤◌, ◌≡◌, refl, ◌≢◌, ◌⊎◌, inl, inr, Bool, true, false, List, [], ◌∷◌, arith, ltb,
  Bool-cases,
}
use sape.Prelude.Result.{Result, ok, err}
use sape.Prelude.Exec.{match_result, continue}
use sape.Text.{Text, text_eq}
use sape.Address.{PeerId, Multiaddr}
use sape.Swarm.{
  SwarmEvent, identify_sent, identify_received, connection_established, mdns_discovered, discovered,
  discover_failed, another_event, stream_end, SwarmError, relay_connect_timed_out,
  peer_dial_timed_out, rendezvous_timed_out, waits_forever, Arrival, Swarm, Deadline, deadline,
  late, expired, within, later, until, Round, more, done, failed, wait_loop, relay_connect_timeout,
  peer_dial_timeout, dial_answered, dial, wait_for_identify, identify_round, continue_until_both,
  connection_round, wait_for_peer_connection_within, wait_for_peer_connection, first_registration,
  rendezvous_round, address_of, connect_and_identify, dial_all, wait_for_rendezvous_discovery,
  Registration,
}
use sape.Swarm.Waits.{wait-more, wait-done, wait-failed, wait-late}

-- An action that comes to its end, with a result or an error, by this millisecond; the clock and the
-- error that stands for no end are those of the state and of the errors.
abbrev pub EndsBy : {S E A : Type 0} → (S → ℕ) → E → ℕ → Result E A × S → Type 0
EndsBy clock forever end r = (r.0 ≢ err forever) × (clock r.1 ≤ end)

pub continue-EndsBy :
    {S E A B : Type 0} (clock : S → ℕ) (forever : E) (m end : ℕ) (r : Result E A × S)
    (k : A → S → Result E B × S)
    → EndsBy clock forever m r
    → m ≤ end
    → ((a : A) (s : S) → clock s ≤ m → EndsBy clock forever end (k a s))
    → EndsBy clock forever end (continue r k)
continue-EndsBy clock forever m end (ok a, s) k ends le next = next a s ends.1
continue-EndsBy clock forever m end (err e, s) k ends le next =
    ((λ h. ends.0 (same h)), omega (arith, ends.1, le))
  where
    same :
        {E A B : Type 0} {x y : E}
        → ◌≡◌ {A = Result E B} (err x) (err y)
        → ◌≡◌ {A = Result E A} (err x) (err y)
    same h = cc

pub EndsBy-le :
    {S E A : Type 0} (clock : S → ℕ) (forever : E) (m end : ℕ) (r : Result E A × S)
    → EndsBy clock forever m r
    → m ≤ end
    → EndsBy clock forever end r
EndsBy-le clock forever m end r ends le = (ends.0, omega (arith, ends.1, le))

-- A wait's time limit: it is not past this millisecond, and it is an error of its own.
pub record IsLimit (end : ℕ) (d : Deadline) : Type 0 where
  pub on_time : (t : ℕ) → late d t ≡ false → t ≤ end
  pub expires_by : (now : ℕ) → now ≤ end → until d now ≤ end
  pub known : expired d ≢ waits_forever

abbrev pub IsKnown : SwarmError → Type 0
IsKnown e = e ≢ waits_forever

abbrev pub clock : Swarm → ℕ
clock w = w.now

abbrev pub By : ℕ → {A : Type 0} → Result SwarmError A × Swarm → Type 0
By end r = EndsBy clock waits_forever end r

later-le : (s t end : ℕ) → s ≤ end → t ≤ end → later s t ≤ end
later-le s t end a b = ground arith

pub deadline-IsLimit : (end : ℕ) (e : SwarmError) → IsKnown e → IsLimit end (deadline end e)
deadline-IsLimit end e k = record {
  on_time = λ t l. ground (arith, l);
  expires_by = λ now le. later-le now end end le (omega arith);
  known = k;
}

-- The tighter of two limits is a limit.
pub within-IsLimit :
    (end end' : ℕ) (e e' : SwarmError)
    → IsKnown e
    → IsKnown e'
    → IsLimit end (within (deadline end e) (deadline end' e'))
within-IsLimit end end' e e' k k' = elim (Bool-cases (ltb end end')) [
  | inl l ↦ rw l (deadline-IsLimit end e k)
  | inr l ↦ rw l (record {
    on_time = λ t h. ground (arith, l, h);
    expires_by = λ now le. later-le now end' end le (ground (arith, l));
    known = k';
  })
]

pub Round-cases :
    {S A : Type 0} (r : Round S A)
    → ((st : S) × (r ≡ more st)) ⊎ (((a : A) × (r ≡ done a)) ⊎ ((x : SwarmError) × (r ≡ failed x)))
Round-cases (more st) = inl (st, refl)
Round-cases (done a) = inr (inl (a, refl))
Round-cases (failed x) = inr (inr (x, refl))

-- A round's own errors are all errors of the code.
abbrev pub FailsKnown : {S A : Type 0} → (S → SwarmEvent → Round S A) → Type 0
FailsKnown {S} round =
    (st : S) (e : SwarmEvent) (x : SwarmError) → round st e ≡ failed x → IsKnown x

pub error_of :
    {A : Type 0} {x y : SwarmError} → ◌≡◌ {A = Result SwarmError A} (err x) (err y) → x ≡ y
error_of h = cc

module _ {S A : Type 0} (round : S → SwarmEvent → Round S A) (fails : FailsKnown round) {end : ℕ}
    {d : Deadline} (limit : IsLimit end d) where
  pub wait_loop-ends :
      (arrivals : List Arrival) (st : S) (now : ℕ) (dialed : List Multiaddr)
      → now ≤ end
      → By end (wait_loop round d st now dialed arrivals)
  unfolding wait_loop
  wait_loop-ends [] st now dialed le = ((λ h. limit.known (error_of h)), limit.expires_by now le)
  wait_loop-ends ((t, e) ∷ rest) st now dialed le = elim (Bool-cases (late d t)) [
    | inl l ↦
        rw (wait-late round d st now dialed t e rest l)
          ((λ h. limit.known (error_of h)), limit.expires_by now le)
    | inr l ↦
        let reached = later-le now t end le (limit.on_time t l) in
        elim (Round-cases (round st e)) [
          | inl (st', r) ↦
              rw (wait-more round d st now dialed t e rest l st' r)
                (wait_loop-ends rest st' (later now t) dialed reached)
          | inr (inl (a, r)) ↦
              rw (wait-done round d st now dialed t e rest l a r) ((λ h. cc), reached)
          | inr (inr (x, r)) ↦
              rw (wait-failed round d st now dialed t e rest l x r)
                ((λ h. fails st e x r (error_of h)), reached)
        ]
  ]
