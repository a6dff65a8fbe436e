-- ===== src/Listen/Setup.antt =====
-- src/client/listen.rs, `run_listen` up to its loop: a relay's reservation, the pairing code, and the
-- addresses that are shown. src/client/builder.rs, `start_listeners`.
pub mod Sure
pub mod Meets
pub mod Sample
mod Tests
use sape.Prelude.{
  ℕ, zero, suc, ◌+◌, ◌-◌, ◌*◌, ◌/◌, ◌%◌, ◌≤◌, ◌<◌, ◌≡◌, refl, sym, ap, ◌∙◌, ◌≢◌, ◌↔◌, ◌⊎◌, inl, inr,
  Bool, true, false, not, ◌&&◌, ◌||◌, Option, none, some, List, [], ◌∷◌, ◌++◌, map, append-nil,
  append_assoc, arith, ltb, leb, ◌==◌, if◌then◌else◌, ==_iff, Bool-cases, Option-cases, length,
  get_elem?, take, drop, length-append, take-append, drop-append, All, All-append,
}
use sape.Prelude.Result.{Result, ok, err, ok_or, map_err}
use sape.Prelude.Exec.{Exec, pure, raise, lift, match_result, ◌>>=◌, ◌>>◌}
use sape.Text.{Text, codes}
use sape.Address.{
  PeerId, Protocol, ip4, tcp, udp, quic_v1, p2p, p2p_circuit, Multiaddr, AddressError,
  validate_relay_address, peer_id_from_multiaddr,
}
use sape.Libp2p.{TextForms}
use sape.Cli.{ListenOpt}
use sape.Swarm.{Swarm, SwarmError, Client, connect_and_identify}

pub data ListenError : Type 0 where
  invalid_relay_address : AddressError → ListenError
  no_identity : Text → ListenError
  listen_failed : Text → ListenError
  swarm_failed : SwarmError → ListenError
  missing_relay_peer_id : ListenError
  invalid_namespace : Text → ListenError
  register_failed : Text → ListenError

-- The lines that tell how to reach the listener, in the text that they end in.
pub data Shown : Type 0 where
  pairing_code_line relay_dial_line lan_dial_line : Text → Shown

pub record Listening : Type 0 where
  pub swarm : Swarm
  pub listens : List Multiaddr
  pub external : List Multiaddr
  -- each namespace, with the rendezvous point
  pub registered : List (Text × PeerId)
  pub shown : List Shown

abbrev pub Setting : Type 0 → Type 0
Setting A = Exec Listening ListenError A

abbrev pub on_swarm : {A : Type 0} → Client A → Setting A
on_swarm m s =
    match_result (m s.swarm) (λ a w. (ok a, record s { swarm = w }))
      (λ e w. (err (swarm_failed e), record s { swarm = w }))

abbrev pub add_external_address : Multiaddr → Setting (Unit {0})
add_external_address addr s = (ok tt, record s { external = s.external ++ addr ∷ [] })

abbrev pub show : Shown → Setting (Unit {0})
show line s = (ok tt, record s { shown = s.shown ++ line ∷ [] })

abbrev pub unwrap_or : Option Text → Text → Text
unwrap_or none other = other
unwrap_or (some code) other = code

abbrev unspecified : Protocol
unspecified = ip4 (0 ∷ 0 ∷ 0 ∷ 0 ∷ [])

-- What is asked of libp2p: its text forms, and whether the swarm takes an address to dial and one to
-- listen on, whether a code is a namespace, and whether the client can register it at a peer.
pub record Behaviour : Type 0 where
  pub forms : TextForms
  pub accepts : Multiaddr → Result Text (Unit {0})
  pub listen_on : Multiaddr → Result Text (Unit {0})
  pub namespace_new : Text → Result Text (Unit {0})
  pub register : Text → PeerId → Result Text (Unit {0})

module _ (behaviour : Behaviour) where
  abbrev pub listening_answered : Multiaddr → Result Text (Unit {0}) → Setting (Unit {0})
  listening_answered addr (ok u) s = (ok tt, record s { listens = s.listens ++ addr ∷ [] })
  listening_answered addr (err e) s = (err (listen_failed e), s)

  abbrev pub listen_at : Multiaddr → Setting (Unit {0})
  listen_at addr = listening_answered addr (behaviour.listen_on addr)

  unfoldable pub start_listeners : Setting (Unit {0})
  start_listeners = do
    listen_at (unspecified ∷ tcp 0 ∷ [])
    listen_at (unspecified ∷ udp 0 ∷ quic_v1 ∷ [])

  abbrev pub registering : Text → PeerId → Result Text (Unit {0}) → Setting (Unit {0})
  registering code point (ok u) s =
      (ok tt, record s { registered = s.registered ++ (code, point) ∷ [] })
  registering code point (err e) s = (err (register_failed e), s)

  -- With a relay's address; `generated` is what `generate_code` gives.
  unfoldable pub reserve : Multiaddr → Option Text → Text → PeerId → Setting (Unit {0})
  reserve relay_address code_opt generated local_peer_id = do
    on_swarm (connect_and_identify behaviour.accepts relay_address)
    listen_at (relay_address ++ p2p_circuit ∷ [])
    add_external_address ((relay_address ++ p2p_circuit ∷ []) ++ p2p local_peer_id ∷ [])
    relay_peer_id ← lift (ok_or (peer_id_from_multiaddr relay_address) missing_relay_peer_id)
    let code = unwrap_or code_opt generated
    lift (map_err invalid_namespace (behaviour.namespace_new code))
    registering code relay_peer_id (behaviour.register code relay_peer_id)
    show (pairing_code_line code)
    let dial_address = (relay_address ++ p2p_circuit ∷ []) ++ p2p local_peer_id ∷ []
    show (relay_dial_line (behaviour.forms.multiaddr_to_string dial_address))

  abbrev pub check_relay_address : Option Multiaddr → Result ListenError (Unit {0})
  check_relay_address none = ok tt
  check_relay_address (some addr) = map_err invalid_relay_address (validate_relay_address addr)

  abbrev pub reserve_if_asked : ListenOpt → Text → PeerId → Option Multiaddr → Setting (Unit {0})
  reserve_if_asked opt generated local_peer_id none = pure tt
  reserve_if_asked opt generated local_peer_id (some relay_address) =
      reserve relay_address opt.code generated local_peer_id

  -- `identity` is the peer id of the key that `resolve_identity` gives, for which the swarm is built.
  unfoldable pub set_up : ListenOpt → Result Text PeerId → Text → Setting (Unit {0})
  set_up opt identity generated = do
    lift (check_relay_address opt.relay_address)
    local_peer_id ← lift (map_err no_identity identity)
    start_listeners
    reserve_if_asked opt generated local_peer_id opt.relay_address
    show (lan_dial_line (codes "/mdns/" ++ behaviour.forms.peer_id_to_string local_peer_id))
