-- ===== src/Dial/Start.antt =====
-- src/client/dial.rs, `run_dial`: with jumps or without, from the options to the session.
pub mod Runs
mod Tests
use sape.Prelude.{
  ℕ, zero, suc, ◌+◌, ◌-◌, ◌*◌, ◌/◌, ◌%◌, ◌≤◌, ◌<◌, ◌≡◌, refl, sym, ap, ◌∙◌, ◌≢◌, ◌↔◌, ◌⊎◌, inl, inr,
  Bool, true, false, not, ◌&&◌, ◌||◌, Option, none, some, List, [], ◌∷◌, ◌++◌, map, append-nil,
  append_assoc, arith, ltb, leb, ◌==◌, if◌then◌else◌, ==_iff, Bool-cases, Option-cases, length,
  get_elem?, take, drop, length-append, take-append, drop-append, All, All-append,
}
use sape.Prelude.Result.{Result, ok, err}
use sape.Prelude.Exec.{match_result}
use sape.Text.{Text}
use sape.Address.{PeerId, Multiaddr, peer_id_from_multiaddr}
use sape.Libp2p.{TextForms}
use sape.Cli.{DialOpt}
use sape.Wire.{Stream, Codec}
use sape.Tunnel.{TunnelRequest}
use sape.Jump.{JumpChain, JumpResult}
use sape.Swarm.{connect_and_identify}
use sape.Dial.{
  DialMode, parse_dial_mode, SetupError, Setup, on_swarm, resolve_target, JumpFailure, jump_hops,
  jump_session,
}
use sape.Dial.Run.{Meeting, Running, run_dial_mode}

pub data DialFailure : Type 0 where
  setup_failed : SetupError → DialFailure
  jump_refused : JumpFailure → DialFailure
  missing_jump_peer_id : DialFailure
  no_jump_stream : Text → DialFailure

-- The session through a chain of jumps, with its stream; or the tunnel to a peer.
pub data Outcome : Type 0 where
  failed : DialFailure → Outcome
  jumped : Result JumpFailure (Unit {0}) × Stream → Outcome
  running : PeerId → Running → Outcome

-- libp2p's text forms and answers, postcard, what `open_stream` gives towards the first jump, and what
-- the dialler meets once it is connected to a peer.
pub record Dialler : Type 0 where
  pub forms : TextForms
  pub accepts : Multiaddr → Result Text (Unit {0})
  pub namespace_new : Text → Result Text (Unit {0})
  pub chains : Codec JumpChain
  pub results : Codec JumpResult
  pub requests : Codec TunnelRequest
  pub jump_stream : PeerId → Result Text Stream
  pub meet : PeerId → Meeting

module _ (dialler : Dialler) (opt : DialOpt) where
  abbrev pub open_jump : List Text → Result Text Stream → Outcome
  open_jump hops (err e) = failed (no_jump_stream e)
  open_jump hops (ok stream) = jumped (
      jump_session dialler.chains dialler.results dialler.requests (record { hops = hops })
        (parse_dial_mode opt) stream)

  abbrev pub jump_to : List Text → Option PeerId → Outcome
  jump_to hops none = failed missing_jump_peer_id
  jump_to hops (some first_peer) = open_jump hops (dialler.jump_stream first_peer)

  abbrev pub start_jump : Multiaddr → Result JumpFailure (List Text) → Setup → Outcome × Setup
  start_jump first_jump (err e) s = (failed (jump_refused e), s)
  start_jump first_jump (ok hops) s =
      match_result (on_swarm (connect_and_identify dialler.accepts first_jump) s)
        (λ u s'. (jump_to hops (peer_id_from_multiaddr first_jump), s'))
        (λ e s'. (failed (setup_failed e), s'))

  abbrev pub start_tunnel : Result SetupError PeerId × Setup → Outcome × Setup
  start_tunnel r =
      match_result r
        (λ peer s. (
          running peer (run_dial_mode dialler.requests (dialler.meet peer) (parse_dial_mode opt)),
          s,
        ))
        (λ e s. (failed (setup_failed e), s))

  abbrev pub dial_through : List Multiaddr → Setup → Outcome × Setup
  dial_through [] s =
      start_tunnel
        (resolve_target dialler.accepts dialler.namespace_new opt.target opt.relay_address s)
  dial_through (first_jump ∷ jumps) s =
      start_jump first_jump (jump_hops dialler.forms opt.target jumps) s

  -- From the swarm that `start_listeners` leaves.
  unfoldable pub run_dial : Setup → Outcome × Setup
  run_dial = dial_through opt.jump
