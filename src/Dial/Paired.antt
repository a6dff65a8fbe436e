-- ===== src/Dial/Paired.antt =====
-- A pairing code from the listener that makes it to the dialler that types it.
mod Tests
use sape.Prelude.{
  ℕ, zero, suc, ◌+◌, ◌-◌, ◌*◌, ◌/◌, ◌%◌, ◌≤◌, ◌<◌, ◌≡◌, refl, sym, ap, ◌∙◌, ◌≢◌, ◌↔◌, ◌⊎◌, inl, inr,
  Bool, true, false, not, ◌&&◌, ◌||◌, Option, none, some, List, [], ◌∷◌, ◌++◌, map, append-nil,
  append_assoc, arith, ltb, leb, ◌==◌, if◌then◌else◌, ==_iff, Bool-cases, Option-cases, length,
  get_elem?, take, drop, length-append, take-append, drop-append, All, All-append,
}
use mathlib.Core.Path.{subst}
use sape.Prelude.Result.{Result, ok, err}
use sape.Text.{Text}
use sape.Address.{PeerId, Multiaddr}
use sape.Address.Circuit.{IsCircuitFree}
use sape.Libp2p.{TextForms, IsFaithful}
use sape.Cli.{ListenOpt}
use sape.Pairing.{generate_code, is_pairing_code}
use sape.Pairing.Format.{HasCodeForm, is_pairing_code_iff, generate_code-IsPairingCode}
use sape.Pairing.Distinct.{generate_code_injective}
use sape.Target.{DialTarget, pairing_code, dial_target_from_str}
use sape.Target.Dial.{dial_target_from_str_iff}
use sape.Swarm.{SwarmEvent, discovered, Registration, never}
use sape.Swarm.Waits.{timely, Heard}
use sape.Listen.Setup.{
  Behaviour, Listening, Shown, pairing_code_line, relay_dial_line, lan_dial_line, unwrap_or, set_up,
}
use sape.Listen.Setup.Meets.{Meets, IsRegistered, HasNoCircuit, set_up-Meets}
use sape.Dial.{Setup, resolve_target}
use sape.Dial.Reach.{Questions, resolve_target_sound}

-- Something of the list is so.
abbrev pub Some : {A : Type 0} → (A → Type 0) → List A → Type 0
Some P [] = ⊥
Some P (x ∷ xs) = P x ⊎ Some P xs

-- A listener that was set up with a relay and a code of its own making.
pub record Waiting : Type 0 where
  pub behaviour : Behaviour
  pub faithful : IsFaithful behaviour.forms
  pub opt : ListenOpt
  pub peer : PeerId
  pub relay : Multiaddr
  pub number : ℕ
  pub first_place : ℕ
  pub second_place : ℕ
  pub code : Text
  pub start : Listening
  pub ready : Listening
  pub has_relay : opt.relay_address ≡ some relay
  pub no_code : opt.code ≡ none
  pub number_drawn : number < 100
  pub first_drawn : first_place < 256
  pub second_drawn : second_place < 256
  pub made : generate_code number first_place second_place ≡ some code
  pub free : IsCircuitFree relay
  pub none_shown : start.shown ≡ []
  pub none_registered : start.registered ≡ []
  pub done : set_up behaviour opt (ok peer) code start ≡ (ok tt, ready)

abbrev pub SameDraws : Waiting → Waiting → Type 0
SameDraws v w =
    (v.number ≡ w.number) × (v.first_place ≡ w.first_place) × (v.second_place ≡ w.second_place)

-- The listener registered this namespace at this rendezvous point.
abbrev pub Registers : Text → PeerId → Waiting → Type 0
Registers namespace point w = Some (λ r. r ≡ (namespace, point)) w.ready.registered

-- The documented behaviour of a rendezvous point, among these listeners: what it reports answers a
-- question that it was asked, and the first in the answer is one of them who registered the namespace
-- of the question there.
abbrev pub ReportsOnly : Questions → List Waiting → List SwarmEvent → Type 0
ReportsOnly asked listeners events =
    (first : Registration) (others : List Registration) (point : PeerId)
    → Heard (discovered (first ∷ others) point) events
    → (namespace : Text) × (Some (λ q. q ≡ (namespace, point)) asked
        × Some (λ w. (w.peer ≡ first.peer_id) × Registers namespace point w) listeners)

waiting-Meets : (w : Waiting) → Meets w.behaviour w.faithful w.peer (some w.relay) w.code w.ready
waiting-Meets w =
    subst (λ c. Meets w.behaviour w.faithful w.peer (some w.relay) (unwrap_or c w.code) w.ready)
      w.no_code
      (subst (λ r. Meets w.behaviour w.faithful w.peer r (unwrap_or w.opt.code w.code) w.ready)
        w.has_relay
        (set_up-Meets w.behaviour w.faithful w.opt w.peer w.code w.start w.ready
          (subst (HasNoCircuit w.behaviour w.faithful) (sym w.has_relay) w.free) w.none_shown
          w.none_registered w.done))

-- A list of one pair holds no other.
one_question :
    {c : Text} {q : PeerId} {namespace : Text} {point : PeerId}
    → Some (λ r. ◌≡◌ {A = Text × PeerId} r (namespace, point)) ((c, q) ∷ [])
    → c ≡ namespace
one_question (inl e) = ap (λ r. r.0) e
one_question (inr h) = absurd h

-- It registers its own code, and no other.
own-Registers :
    (w : Waiting) (namespace : Text) (point : PeerId)
    → Registers namespace point w
    → w.code ≡ namespace
own-Registers w namespace point r =
    let (circuit, (lan, (shown, ((p, (named, registered)), found)))) = waiting-Meets w in
    one_question (subst (Some (λ r. r ≡ (namespace, point))) registered r)

code-HasCodeForm : (w : Waiting) → HasCodeForm w.code
code-HasCodeForm w =
    let (s, made, is_code) =
      generate_code-IsPairingCode w.number w.first_place w.second_place w.number_drawn w.first_drawn
        w.second_drawn in
    (is_pairing_code_iff w.code).0
      (subst (λ t. is_pairing_code t ≡ true) (text_of (sym made ∙ w.made)) is_code)
  where
    text_of : {s t : Text} → ◌≡◌ {A = Option Text} (some s) (some t) → s ≡ t
    text_of h = cc

module _ (mine : Waiting) where
  -- Of the listeners, only this one can have been reported for its code.
  only_mine :
      (others : List Waiting) (point reported : PeerId)
      → All (λ w. ¬ SameDraws w mine) others
      → Some (λ w. (w.peer ≡ reported) × Registers mine.code point w) (mine ∷ others)
      → (mine.peer ≡ reported) × Registers mine.code point mine
  only_mine others point reported differ (inl (same, r)) = (same, r)
  only_mine others point reported differ (inr h) = among others differ h
    where
      among :
          (others : List Waiting)
          → All (λ w. ¬ SameDraws w mine) others
          → Some (λ w. (w.peer ≡ reported) × Registers mine.code point w) others
          → (mine.peer ≡ reported) × Registers mine.code point mine
      among [] differ h = absurd h
      among (w ∷ ws) (other, differ) (inl (same, r)) = absurd (
          other (
            generate_code_injective w.number w.first_place w.second_place mine.number
              mine.first_place mine.second_place mine.code w.number_drawn mine.number_drawn
              (subst (λ c. generate_code w.number w.first_place w.second_place ≡ some c)
                (own-Registers w mine.code point r) w.made)
              mine.made))
      among (w ∷ ws) (other, differ) (inr h) = among ws differ h

  -- A listener that was set up with a relay shows a code; a dialler that is given this text takes it
  -- for a pairing code, and if it gets as far as a peer, whatever relay it asks, that peer is this
  -- listener, among any listeners that were set up and made their codes from other draws. It has then
  -- asked one rendezvous point for this code, and nothing else, and that point is one at which this
  -- listener registered it. It must have asked nothing before, and the rendezvous points answer what
  -- it asks: they report only peers that registered, with them, the namespace that they were asked for.
  pub resolve_target-paired :
      (others : List Waiting) (forms : TextForms) (accepts : Multiaddr → Result Text (Unit {0}))
      (namespace_new : Text → Result Text (Unit {0})) (target : DialTarget)
      (relay : Option Multiaddr) (peer : PeerId) (s t : Setup)
      → All (λ w. ¬ SameDraws w mine) others
      → s.asked ≡ []
      → ReportsOnly t.asked (mine ∷ others) (timely never s.swarm.arrivals)
      → dial_target_from_str forms mine.code ≡ ok target
      → resolve_target accepts namespace_new target relay s ≡ (ok peer, t)
      → (target ≡ pairing_code mine.code)
        × ((peer ≡ mine.peer)
            × ((point : PeerId) × ((t.asked ≡ (mine.code, point) ∷ [])
                  × (Registers mine.code point mine
                      × ((more : List Shown) × (mine.ready.shown
                            ≡ pairing_code_line mine.code ∷ more))))))
  resolve_target-paired others forms accepts namespace_new target relay peer s t differ new reports
        typed reached =
      let read =
        (dial_target_from_str_iff forms mine.code mine.code [] []).0.1
          (code-HasCodeForm mine, refl) in
      let target_is : target ≡ pairing_code mine.code = target_of (sym typed ∙ read) in
      let (
        heard,
        (base, (point, (given, (named, (question, (first, (rest, (found, is_peer)))))))),
      ) =
        resolve_target_sound accepts namespace_new (pairing_code mine.code) relay peer s t (
          subst (λ x. resolve_target accepts namespace_new x relay s ≡ (ok peer, t)) target_is
            reached) in
      let (namespace, (asked, registered)) = reports first rest point found in
      let this_alone : t.asked ≡ (mine.code, point) ∷ [] =
        question ∙ ap (λ x. x ++ (mine.code, point) ∷ []) new in
      let for_code : mine.code ≡ namespace =
        one_question (subst (Some (λ q. q ≡ (namespace, point))) this_alone asked) in
      let of_mine =
        subst (λ n. Some (λ w. (w.peer ≡ first.peer_id) × Registers n point w) (mine ∷ others))
          (sym for_code) registered in
      let (same, registers) = only_mine others point first.peer_id differ of_mine in
      let (circuit, (lan, (shown, others_shown))) = waiting-Meets mine in
      (
        target_is,
        (
          sym is_peer ∙ sym same,
          (
            point,
            (this_alone, (registers, (relay_dial_line circuit ∷ lan_dial_line lan ∷ [], shown))),
          ),
        ),
      )
    where
      target_of :
          {E : Type 0} {a b : DialTarget} → ◌≡◌ {A = Result E DialTarget} (ok a) (ok b) → a ≡ b
      target_of h = cc
