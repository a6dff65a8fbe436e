-- ===== src/Swarm/Found.antt =====
-- What is known of a loop over the swarm's events that ended with a result.
use mathlib.Core.Path.{subst}
use sape.Prelude.{
  ℕ, ◌≤◌, ◌≡◌, refl, sym, ap, ◌∙◌, ◌⊎◌, inl, inr, true, false, List, [], ◌∷◌, arith, Bool-cases,
}
use sape.Prelude.Result.{ok}
use sape.Address.{Multiaddr}
use sape.Swarm.{
  SwarmEvent, SwarmError, ended_unexpectedly, connection_established, mdns_discovered, discovered,
  discover_failed, identify_sent, identify_received, another_event, stream_end, Arrival, Swarm,
  Deadline, late, later, Round, more, done, failed, wait_loop,
}
use sape.Swarm.Waits.{is_end, timely, Heard, wait-more, wait-done, wait-failed, wait-late}

-- What is heard before one deadline is heard before a later one.
abbrev pub NoLater : Deadline → Deadline → Type 0
NoLater d d' = (t : ℕ) → late d t ≡ false → late d' t ≡ false

pub Heard-later :
    (d d' : Deadline) (x : SwarmEvent) (arrivals : List Arrival)
    → NoLater d d'
    → Heard x (timely d arrivals)
    → Heard x (timely d' arrivals)
Heard-later d d' x [] before h = h
Heard-later d d' x ((t, e) ∷ rest) before h = elim (Bool-cases (late d t)) [
  | inl l ↦ absurd (rw l at h)
  | inr l ↦ elim (Bool-cases (is_end e)) [
    | inl end ↦ absurd (rw (l, end) at h)
    | inr goes_on ↦ elim (rw (l, goes_on) at h) [
      | inl same ↦ rw (before t l, goes_on) (inl same)
      | inr heard ↦ rw (before t l, goes_on) (inr (Heard-later d d' x rest before heard))
    ]
  ]
]

-- A loop that ended with a result: the event that ended it, and what it left.
pub record IsFound {S A : Type 0} (round : S → SwarmEvent → Round S A) (d : Deadline) (now : ℕ)
    (arrivals : List Arrival) (a : A) (w : Swarm) : Type 0 where
  pub last_state : S
  pub event : SwarmEvent
  pub heard : Heard event (timely d arrivals)
  pub ends : round last_state event ≡ done a
  pub left :
      (d' : Deadline) (x : SwarmEvent)
      → NoLater d d'
      → Heard x (timely d' w.arrivals)
      → Heard x (timely d' arrivals)
  pub time : now ≤ w.now

later-le : (s t : ℕ) → s ≤ later s t
later-le s t = ground arith

Round-cases :
    {S A : Type 0} (r : Round S A)
    → ((st : S) × (r ≡ more st)) ⊎ (((a : A) × (r ≡ done a)) ⊎ ((x : SwarmError) × (r ≡ failed x)))
Round-cases (more st) = inl (st, refl)
Round-cases (done a) = inr (inl (a, refl))
Round-cases (failed x) = inr (inr (x, refl))

end_of : (e : SwarmEvent) → is_end e ≡ true → e ≡ stream_end
end_of stream_end h = refl
end_of (identify_sent q) h = cc
end_of (identify_received q) h = cc
end_of (connection_established p) h = cc
end_of (mdns_discovered ps) h = cc
end_of (discovered rs n) h = cc
end_of (discover_failed n) h = cc
end_of another_event h = cc

module _ {S A : Type 0} (round : S → SwarmEvent → Round S A) (d : Deadline)
    (ends : (st : S) → round st stream_end ≡ failed ended_unexpectedly) where
  pub wait_loop-IsFound :
      (st : S) (now : ℕ) (dialed : List Multiaddr) (arrivals : List Arrival) (a : A) (w : Swarm)
      → wait_loop round d st now dialed arrivals ≡ (ok a, w)
      → IsFound round d now arrivals a w
  unfolding wait_loop
  wait_loop-IsFound st now dialed [] a w h = cc
  wait_loop-IsFound st now dialed ((t, e) ∷ rest) a w h = elim (Bool-cases (late d t)) [
    | inl l ↦ cc (sym (wait-late round d st now dialed t e rest l) ∙ h)
    | inr l ↦ elim (Bool-cases (is_end e)) [
      | inl end ↦
          let same = ap (round st) (end_of e end) ∙ ends st in
          cc (sym (wait-failed round d st now dialed t e rest l ended_unexpectedly same) ∙ h)
      | inr goes_on ↦ elim (Round-cases (round st e)) [
        | inl (st', next) ↦
            let step = wait-more round d st now dialed t e rest l st' next in
            let found = wait_loop-IsFound st' (later now t) dialed rest a w (sym step ∙ h) in
            record {
              last_state = found.last_state;
              event = found.event;
              heard = rw (l, goes_on) (inr found.heard);
              ends = found.ends;
              left = λ d' x before g. rw (before t l, goes_on) (inr (found.left d' x before g));
              time = let m = later-le now t in let n = found.time in omega arith;
            }
        | inr (inl (b, last)) ↦
            let e' = sym (wait-done round d st now dialed t e rest l b last) ∙ h in
            record {
              last_state = st;
              event = e;
              heard = rw (l, goes_on) (inl refl);
              ends = cc (last, e');
              left = λ d' x before g.
                  rw (before t l, goes_on)
                    (inr
                      (subst (λ xs. Heard x (timely d' xs)) (sym (ap (λ r. r.1.arrivals) e')) g));
              time = subst (λ n. now ≤ n) (ap (λ r. r.1.now) e') (later-le now t);
            }
        | inr (inr (x, last)) ↦ cc (sym (wait-failed round d st now dialed t e rest l x last) ∙ h)
      ]
    ]
  ]
