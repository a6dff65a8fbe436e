-- ===== src/Dial/Paired/Tests.antt =====
-- Two listeners at one relay, and a dialler that types the code of one.
use sape.Prelude.{◌≡◌, refl, ap, inl, inr, some, List, [], ◌∷◌, arith}
use sape.Prelude.Result.{Result, ok}
use sape.Text.{Text, codes}
use sape.Text.Number.{to_string, parse_unsigned}
use sape.Text.Split.{split}
use sape.Address.{PeerId, Multiaddr, peer_id_from_multiaddr}
use sape.Libp2p.Sample.{sample, sample-IsFaithful}
use sape.Pairing.{generate_code, is_pairing_code, words}
use sape.Target.{pairing_code, dial_target_from_str}
use sape.Swarm.{
  identify_sent, identify_received, connection_established, discovered, Registration,
  connect_and_identify, wait_for_rendezvous_discovery, wait_loop, never,
}
use sape.Swarm.Waits.{timely}
use sape.Listen.Setup.{Shown, pairing_code_line}
use sape.Listen.Setup.Sample.{behaviour, opt, start, relay, ready, set_up-ready}
use sape.Dial.{Setup, resolve_target}
use sape.Dial.Paired.{Waiting, SameDraws, Registers, ReportsOnly, resolve_target-paired}

abbrev mine_peer : PeerId
mine_peer = 9 ∷ []

abbrev code : Text
code = codes "7-acorn-zephyr"

-- A listener whose draws were this number and these words.
mine : Waiting
unfolding generate_code words to_string
mine = record {
  behaviour = behaviour;
  faithful = sample-IsFaithful;
  opt = opt;
  peer = mine_peer;
  relay = relay;
  number = 7;
  first_place = 0;
  second_place = 255;
  code = code;
  start = start;
  ready = ready mine_peer code;
  has_relay = refl;
  no_code = refl;
  number_drawn = omega arith;
  first_drawn = omega arith;
  second_drawn = omega arith;
  made = refl;
  free = (refl, (refl, tt));
  none_shown = refl;
  none_registered = refl;
  done = set_up-ready mine_peer code;
}

other : Waiting
unfolding generate_code words to_string
other = record {
  behaviour = behaviour;
  faithful = sample-IsFaithful;
  opt = opt;
  peer = 8 ∷ [];
  relay = relay;
  number = 6;
  first_place = 0;
  second_place = 255;
  code = codes "6-acorn-zephyr";
  start = start;
  ready = ready (8 ∷ []) (codes "6-acorn-zephyr");
  has_relay = refl;
  no_code = refl;
  number_drawn = omega arith;
  first_drawn = omega arith;
  second_drawn = omega arith;
  made = refl;
  free = (refl, (refl, tt));
  none_shown = refl;
  none_registered = refl;
  done = set_up-ready (8 ∷ []) (codes "6-acorn-zephyr");
}

abbrev found : Registration
found = record { peer_id = mine_peer; addresses = [] }

abbrev setup : Setup
setup = record {
  swarm = record {
    now = 0;
    arrivals =
        (10, identify_sent (1 ∷ []))
        ∷ (20, identify_received (1 ∷ []))
        ∷ (30, discovered (found ∷ []) (1 ∷ []))
        ∷ (40, connection_established mine_peer)
        ∷ [];
    dialed = [];
  };
  asked = [];
}

abbrev accepts : Multiaddr → Result Text (Unit {0})
accepts addr = ok tt

abbrev namespace_new : Text → Result Text (Unit {0})
namespace_new namespace = ok tt

abbrev ended : Setup
ended = record {
  swarm = record { now = 40; arrivals = []; dialed = relay ∷ [] };
  asked = (code, 1 ∷ []) ∷ [];
}

reached :
    resolve_target accepts namespace_new (pairing_code code) (some relay) setup
    ≡ (ok mine_peer, ended)
unfolding resolve_target connect_and_identify wait_for_rendezvous_discovery wait_loop
    peer_id_from_multiaddr
reached = refl

typed : dial_target_from_str sample code ≡ ok (pairing_code code)
unfolding dial_target_from_str is_pairing_code split parse_unsigned words
typed = refl

reports : ReportsOnly ended.asked (mine ∷ other ∷ []) (timely never setup.swarm.arrivals)
unfolding mine
reports first others point h = elim h [
  | inl e ↦ cc
  | inr h1 ↦ elim h1 [
    | inl e ↦ cc
    | inr h2 ↦ elim h2 [
      | inl e ↦ (
        code,
        (
          inl (ap (λ p. (code, p)) (point_of e)),
          inl (ap (λ r. r.peer_id) (first_of e), inl (ap (λ p. (code, p)) (point_of e))),
        ),
      )
      | inr h3 ↦ elim h3 [ inl e ↦ cc | inr h4 ↦ absurd h4 ]
    ]
  ]
]
  where
    first_of :
        {a b : Registration} {xs ys : List Registration} {p q : PeerId}
        → discovered (a ∷ xs) p ≡ discovered (b ∷ ys) q
        → a ≡ b
    first_of h = cc

    point_of :
        {xs ys : List Registration} {p q : PeerId} → discovered xs p ≡ discovered ys q → p ≡ q
    point_of h = cc

different : ¬ SameDraws other mine
unfolding mine other
different same = omega (arith, same.0)

resolve_target-paired_example :
    (pairing_code code ≡ pairing_code code)
    × ((mine_peer ≡ mine_peer)
        × ((point : PeerId) × ((ended.asked ≡ (code, point) ∷ [])
              × (Registers code point mine
                  × ((more : List Shown) × ((ready mine_peer code).shown
                        ≡ pairing_code_line code ∷ more))))))
unfolding mine
resolve_target-paired_example =
    resolve_target-paired mine (other ∷ []) sample accepts namespace_new (pairing_code code)
      (some relay) mine_peer setup ended (different, tt) refl reports typed reached
