-- ===== src/Swarm/InTime/Rounds.antt =====
-- The rounds of the waits fail with errors of the code only.
use sape.Prelude.{◌≡◌, inl, inr, Bool, true, false, List, [], ◌∷◌, Bool-cases}
use sape.Text.{text_eq}
use sape.Address.{PeerId}
use sape.Swarm.{
  identify_sent, identify_received, connection_established, mdns_discovered, discovered,
  discover_failed, another_event, stream_end, SwarmError, Round, more, done, failed, identify_round,
  continue_until_both, connection_round, first_registration, rendezvous_round, Registration,
}
use sape.Swarm.InTime.{IsKnown, FailsKnown}

fails_of : {S A : Type 0} {x y : SwarmError} → ◌≡◌ {A = Round S A} (failed x) (failed y) → x ≡ y
fails_of h = cc

goes_on : {S A : Type 0} {st : S} {x : SwarmError} → ◌≡◌ {A = Round S A} (more st) (failed x) → ⊥
goes_on h = cc

is_done : {S A : Type 0} {a : A} {x : SwarmError} → ◌≡◌ {A = Round S A} (done a) (failed x) → ⊥
is_done h = cc

both-IsKnown : (b : Bool × Bool) (x : SwarmError) → continue_until_both b ≡ failed x → IsKnown x
both-IsKnown (true, true) x h = absurd (is_done h)
both-IsKnown (true, false) x h = absurd (goes_on h)
both-IsKnown (false, told) x h = absurd (goes_on h)

pub identify-FailsKnown : FailsKnown identify_round
identify-FailsKnown (learned, told) stream_end x h = λ f. cc (fails_of h, f)
identify-FailsKnown (learned, told) (identify_sent q) x h = both-IsKnown (learned, true) x h
identify-FailsKnown (learned, told) (identify_received q) x h = both-IsKnown (true, told) x h
identify-FailsKnown (learned, told) (connection_established p) x h =
    both-IsKnown (learned, told) x h
identify-FailsKnown (learned, told) (mdns_discovered ps) x h = both-IsKnown (learned, told) x h
identify-FailsKnown (learned, told) (discovered rs p) x h = both-IsKnown (learned, told) x h
identify-FailsKnown (learned, told) (discover_failed p) x h = both-IsKnown (learned, told) x h
identify-FailsKnown (learned, told) another_event x h = both-IsKnown (learned, told) x h

pub connection-FailsKnown : (p : PeerId) → FailsKnown (connection_round p)
connection-FailsKnown p st stream_end x h = λ f. cc (fails_of h, f)
connection-FailsKnown p st (connection_established q) x h = elim (Bool-cases (text_eq q p)) [
  | inl e ↦ absurd (is_done (rw e at h))
  | inr e ↦ absurd (goes_on (rw e at h))
]
connection-FailsKnown p st (identify_sent q) x h = absurd (goes_on h)
connection-FailsKnown p st (identify_received q) x h = absurd (goes_on h)
connection-FailsKnown p st (mdns_discovered ps) x h = absurd (goes_on h)
connection-FailsKnown p st (discovered rs q) x h = absurd (goes_on h)
connection-FailsKnown p st (discover_failed q) x h = absurd (goes_on h)
connection-FailsKnown p st another_event x h = absurd (goes_on h)

first-IsKnown :
    (rs : List Registration) (x : SwarmError) → first_registration rs ≡ failed x → IsKnown x
first-IsKnown [] x h = absurd (goes_on h)
first-IsKnown (r ∷ rs) x h = absurd (is_done h)

pub rendezvous-FailsKnown : (p : PeerId) → FailsKnown (rendezvous_round p)
rendezvous-FailsKnown p st stream_end x h = λ f. cc (fails_of h, f)
rendezvous-FailsKnown p st (discovered rs q) x h = elim (Bool-cases (text_eq q p)) [
  | inl e ↦ first-IsKnown rs x (rw e at h)
  | inr e ↦ absurd (goes_on (rw e at h))
]
rendezvous-FailsKnown p st (discover_failed q) x h = elim (Bool-cases (text_eq q p)) [
  | inl e ↦ λ f. cc (fails_of (rw e at h), f)
  | inr e ↦ absurd (goes_on (rw e at h))
]
rendezvous-FailsKnown p st (identify_sent q) x h = absurd (goes_on h)
rendezvous-FailsKnown p st (identify_received q) x h = absurd (goes_on h)
rendezvous-FailsKnown p st (connection_established q) x h = absurd (goes_on h)
rendezvous-FailsKnown p st (mdns_discovered ps) x h = absurd (goes_on h)
rendezvous-FailsKnown p st another_event x h = absurd (goes_on h)
