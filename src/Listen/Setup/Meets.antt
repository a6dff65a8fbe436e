-- ===== src/Listen/Setup/Meets.antt =====
-- What a listener shows leads a dialler to it.
use sape.Prelude.{◌≡◌, ap, Option, none, some, [], ◌∷◌, ◌++◌}
use sape.Prelude.Result.{Result, ok, err, ok_or, map_err}
use sape.Prelude.Exec.{lift, ◌>>◌}
use sape.Text.{Text, codes}
use sape.Address.{
  PeerId, p2p, p2p_circuit, Multiaddr, validate_relay_address, peer_id_from_multiaddr,
  relay_base_from_circuit_address,
}
use sape.Address.Circuit.{IsCircuitFree, relay_base_from_circuit_address-advertised}
use sape.Libp2p.{IsFaithful}
use sape.Target.{mdns, relay_circuit, dial_target_from_str}
use sape.Target.Dial.{dial_target_from_str-to_string}
use sape.Cli.{ListenOpt}
use sape.Swarm.{connect_and_identify}
use sape.Listen.Setup.{
  pairing_code_line, relay_dial_line, lan_dial_line, Listening, unwrap_or, Behaviour,
  listening_answered, listen_at, start_listeners, registering, reserve, check_relay_address,
  reserve_if_asked, set_up, show, missing_relay_peer_id, invalid_namespace,
}
use sape.Listen.Setup.Sure.{
  Sure, continue-Sure, IsFresh, lift-IsFresh, on_swarm-IsFresh, ok_or-some, relay-ok,
}

module _ (behaviour : Behaviour) (faithful : IsFaithful behaviour.forms) where
  listen_at-IsFresh :
      (addr : Multiaddr) (l : Listening)
      → IsFresh l
      → Sure (λ u. IsFresh) (listen_at behaviour addr l)
  listen_at-IsFresh addr l fresh = answered (behaviour.listen_on addr)
    where
      answered :
          (r : Result Text (Unit {0})) → Sure (λ u. IsFresh) (listening_answered behaviour addr r l)
      answered (ok u) = record { holds = fresh }
      answered (err e) = record { holds = tt }

  registering-Sure :
      (code : Text) (point : PeerId) (r : Result Text (Unit {0})) (l : Listening)
      → IsFresh l
      → Sure
          (λ u l'. (l'.shown ≡ []) × (l'.registered ≡ (code, point) ∷ []))
          (registering behaviour code point r l)
  registering-Sure code point (ok u) l fresh = record {
    holds = (fresh.0, ap (λ rs. rs ++ (code, point) ∷ []) fresh.1);
  }
  registering-Sure code point (err e) l fresh = record { holds = tt }

  -- A dialler reads the text as a peer to find in its own network.
  abbrev pub FindsPeer : Text → PeerId → Type 0
  FindsPeer text peer = dial_target_from_str behaviour.forms text ≡ ok (mdns peer)

  -- A dialler reads the text as an address behind which it finds the relay and the peer.
  abbrev pub FindsCircuit : Text → Multiaddr → PeerId → Type 0
  FindsCircuit text relay peer =
      (addr : Multiaddr) × ((dial_target_from_str behaviour.forms text ≡ ok (relay_circuit addr))
        × (relay_base_from_circuit_address addr ≡ ok (relay, peer)))

  -- The registration is for the code, at the peer that the relay's address names: the one that a
  -- dialler with this relay address and this code asks.
  abbrev pub IsRegistered : Text → Multiaddr → Listening → Type 0
  IsRegistered code relay l =
      (point : PeerId) × ((peer_id_from_multiaddr relay ≡ some point)
        × (l.registered ≡ (code, point) ∷ []))

  -- What is shown is as said, for a listener with or without a relay.
  abbrev pub Meets : PeerId → Option Multiaddr → Text → Listening → Type 0
  Meets peer none code l = (lan : Text) × ((l.shown ≡ lan_dial_line lan ∷ []) × FindsPeer lan peer)
  Meets peer (some relay) code l =
      (circuit : Text) × ((lan : Text) × ((l.shown
            ≡ pairing_code_line code ∷ relay_dial_line circuit ∷ lan_dial_line lan ∷ [])
          × (IsRegistered code relay l × (FindsCircuit circuit relay peer × FindsPeer lan peer))))

  abbrev IsReserved : PeerId → Multiaddr → Text → Listening → Type 0
  IsReserved peer relay code l =
      (circuit : Text) × ((l.shown ≡ pairing_code_line code ∷ relay_dial_line circuit ∷ [])
        × (IsRegistered code relay l × FindsCircuit circuit relay peer))

  circuit-found :
      (relay : Multiaddr) (peer : PeerId)
      → IsCircuitFree relay
      → validate_relay_address relay ≡ ok tt
      → FindsCircuit
          (behaviour.forms.multiaddr_to_string ((relay ++ p2p_circuit ∷ []) ++ p2p peer ∷ []))
          relay
          peer
  circuit-found relay peer free valid =
      let addr = (relay ++ p2p_circuit ∷ []) ++ p2p peer ∷ [] in
      (
        addr,
        (
          (dial_target_from_str-to_string behaviour.forms faithful peer addr).1,
          relay_base_from_circuit_address-advertised relay peer free valid,
        ),
      )

  start_listeners-IsFresh :
      (l : Listening) → IsFresh l → Sure (λ u. IsFresh) (start_listeners behaviour l)
  unfolding start_listeners
  start_listeners-IsFresh l fresh =
      continue-Sure (listen_at-IsFresh _ l fresh) (λ u l1 fresh1. listen_at-IsFresh _ l1 fresh1)

  reserve-Sure :
      (relay : Multiaddr) (code_opt : Option Text) (generated : Text) (peer : PeerId)
      (l : Listening)
      → IsCircuitFree relay
      → validate_relay_address relay ≡ ok tt
      → IsFresh l
      → Sure
          (λ u. IsReserved peer relay (unwrap_or code_opt generated))
          (reserve behaviour relay code_opt generated peer l)
  unfolding reserve
  reserve-Sure relay code_opt generated peer l free valid fresh =
      let code = unwrap_or code_opt generated in
      let dial_address = (relay ++ p2p_circuit ∷ []) ++ p2p peer ∷ [] in
      continue-Sure
        (on_swarm-IsFresh (connect_and_identify behaviour.accepts relay l.swarm) l fresh)
        (λ u1 l1 fresh1.
          continue-Sure (listen_at-IsFresh (relay ++ p2p_circuit ∷ []) l1 fresh1) (λ u2 l2 fresh2.
            continue-Sure
              (lift-IsFresh (ok_or (peer_id_from_multiaddr relay) missing_relay_peer_id)
                (record l2 { external = l2.external ++ dial_address ∷ [] }) fresh2)
              (λ point l3 (named, fresh3).
                continue-Sure
                  (lift-IsFresh (map_err invalid_namespace (behaviour.namespace_new code)) l3
                    fresh3)
                  (λ u4 l4 (allowed, fresh4).
                    continue-Sure
                      (registering-Sure code point (behaviour.register code point) l4 fresh4)
                      (λ u5 l5 (none_shown, registered). record {
                        holds = (
                          behaviour.forms.multiaddr_to_string dial_address,
                          (
                            ap
                                (λ ls.
                                  (ls ++ pairing_code_line code ∷ [])
                                  ++ relay_dial_line
                                      (behaviour.forms.multiaddr_to_string dial_address)
                                    ∷ [])
                                none_shown,
                            (
                              (
                                point,
                                (
                                  ok_or-some (peer_id_from_multiaddr relay) missing_relay_peer_id
                                      point named,
                                  registered,
                                ),
                              ),
                              circuit-found relay peer free valid,
                            ),
                          ),
                        );
                      })))))

  abbrev pub HasNoCircuit : Option Multiaddr → Type 0
  HasNoCircuit none = Unit
  HasNoCircuit (some relay) = IsCircuitFree relay

  abbrev lan_text : PeerId → Text
  lan_text peer = codes "/mdns/" ++ behaviour.forms.peer_id_to_string peer

  lan-found : (peer : PeerId) → FindsPeer (lan_text peer) peer
  lan-found peer = (dial_target_from_str-to_string behaviour.forms faithful peer []).0

  set_up-Sure :
      (relay_opt : Option Multiaddr) (opt : ListenOpt) (peer : PeerId) (generated : Text)
      (l : Listening)
      → HasNoCircuit relay_opt
      → IsFresh l
      → Sure
          (λ u. Meets peer relay_opt (unwrap_or opt.code generated))
          ((lift (check_relay_address behaviour relay_opt)
              >> (start_listeners behaviour
                  >> (reserve_if_asked behaviour opt generated peer relay_opt
                      >> show (lan_dial_line (lan_text peer)))))
            l)
  set_up-Sure none opt peer generated l free fresh =
      continue-Sure (lift-IsFresh (check_relay_address behaviour none) l fresh)
        (λ u1 l1 (checked, fresh1).
          continue-Sure
            {f = λ u.
              reserve_if_asked behaviour opt generated peer none
              >> show (lan_dial_line (lan_text peer))}
            (start_listeners-IsFresh l1 fresh1)
            (λ u2 l2 fresh2. record {
              holds = (
                lan_text peer,
                (ap (λ ls. ls ++ lan_dial_line (lan_text peer) ∷ []) fresh2.0, lan-found peer),
              );
            }))
  set_up-Sure (some relay) opt peer generated l free fresh =
      continue-Sure (lift-IsFresh (check_relay_address behaviour (some relay)) l fresh)
        (λ u1 l1 (checked, fresh1).
          continue-Sure (start_listeners-IsFresh l1 fresh1) (λ u2 l2 fresh2.
            continue-Sure {f = λ u. show (lan_dial_line (lan_text peer))}
              (reserve-Sure relay opt.code generated peer l2 free
                (relay-ok (validate_relay_address relay) checked) fresh2)
              (λ u3 l3 (circuit, (shown, (registered, found))). record {
                holds = (
                  circuit,
                  (
                    lan_text peer,
                    (
                      ap (λ ls. ls ++ lan_dial_line (lan_text peer) ∷ []) shown,
                      (registered, (found, lan-found peer)),
                    ),
                  ),
                );
              })))

  -- A listener that is set up shows how it is reached, and what it shows is true. It always shows a
  -- text that a dialler reads as its peer, to be found by mDNS. With a relay it shows before this its
  -- code, given or generated, which it registered at the very peer that a dialler with that relay's
  -- address asks; and a text that a dialler reads as a circuit address, behind which it finds the same
  -- relay's address and this listener. The relay's address is supposed to hold no circuit marker of
  -- its own, and libp2p's text forms to be read back.
  pub set_up-Meets :
      (opt : ListenOpt) (peer : PeerId) (generated : Text) (start l : Listening)
      → HasNoCircuit opt.relay_address
      → start.shown ≡ []
      → start.registered ≡ []
      → set_up behaviour opt (ok peer) generated start ≡ (ok tt, l)
      → Meets peer opt.relay_address (unwrap_or opt.code generated) l
  unfolding set_up
  set_up-Meets opt peer generated start l free none_shown none_registered done =
      rw done at
        (set_up-Sure opt.relay_address opt peer generated start free
          (none_shown, none_registered)).holds
