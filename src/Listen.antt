-- ===== src/Listen.antt =====
-- src/client/listen.rs: what the listener does with each tunnel stream.
pub mod Access
pub mod Sessions
pub mod Setup
mod Tests
use sape.Prelude.{
  ℕ, zero, suc, ◌+◌, ◌-◌, ◌*◌, ◌/◌, ◌%◌, ◌≤◌, ◌<◌, ◌≡◌, refl, sym, ap, ◌∙◌, ◌≢◌, ◌↔◌, ◌⊎◌, inl, inr,
  Bool, true, false, not, ◌&&◌, ◌||◌, Option, none, some, List, [], ◌∷◌, ◌++◌, map, append-nil,
  append_assoc, arith, ltb, leb, ◌==◌, if◌then◌else◌, ==_iff, Bool-cases, Option-cases, length,
  get_elem?, take, drop, length-append, take-append, drop-append, All, All-append,
}
use sape.Prelude.Result.{Result, ok, err}
use sape.Prelude.Exec.{match_result}
use sape.Text.{Text, text_eq}
use sape.Address.{PeerId}
use sape.Wire.{Stream, Codec}
use sape.Tunnel.{TunnelRequest, netcat, local_forward, reverse_forward, read_tunnel_request}
use sape.Forward.{
  Machine, Effect, netcat_session, rejected, read_failed, ack_failed, bind_failed, send_reverse_ack,
  handle_forward_to_target, start_reverse_listener,
}

-- `allowed_peers.contains(&peer)`
abbrev pub contains_peer : List PeerId → PeerId → Bool
contains_peer [] peer = false
contains_peer (p ∷ ps) peer = text_eq p peer || contains_peer ps peer

abbrev pub no_peers : List PeerId → Bool
no_peers [] = true
no_peers (p ∷ ps) = false

-- The effects of a bind that failed, after the acknowledgement.
abbrev bind_effects : Result (List ℕ) (Unit {0}) → List Effect
bind_effects (ok u) = []
bind_effects (err reason) = bind_failed reason ∷ []

unfoldable pub serve_request : Machine → PeerId → TunnelRequest → Stream → List Effect × Stream
serve_request machine peer netcat s = (netcat_session ∷ [], s)
serve_request machine peer (local_forward target) s = (handle_forward_to_target machine target, s)
serve_request machine peer (reverse_forward bind_port target gateway_ports) s =
    let (result, effects) = start_reverse_listener machine peer bind_port target gateway_ports in
    match_result (send_reverse_ack result s) (λ u s'. (effects ++ bind_effects result, s'))
      (λ e s'. (effects ++ ack_failed e ∷ bind_effects result, s'))

-- The signal to end, the end of the incoming streams, or one of them.
pub data Waited : Type 0 where
  ctrl_c incoming_ended : Waited
  tunnel : PeerId → Stream → Waited

pub data Ending : Type 0 where
  shut_down ended_unexpectedly still_accepting : Ending

module _ (codec : Codec TunnelRequest) where
  -- The task that `run_listen` spawns for one incoming stream.
  unfoldable pub handle_tunnel : Machine → List PeerId → PeerId → Stream → List Effect × Stream
  unfolding serve_request
  handle_tunnel machine allowed_peers peer s =
      if not (no_peers allowed_peers) && not (contains_peer allowed_peers peer)
      then (rejected peer ∷ [], s)
      else match_result (read_tunnel_request codec s)
          (λ request s'. serve_request machine peer request s') (λ e s'. (read_failed e ∷ [], s'))

  -- The loop of `run_listen`, over what it waits for, with a task for each stream.
  unfoldable pub accept_tunnels :
      Machine → List PeerId → List Waited → Ending × List (List Effect × Stream)
  unfolding handle_tunnel
  accept_tunnels machine allowed_peers [] = (still_accepting, [])
  accept_tunnels machine allowed_peers (ctrl_c ∷ waited) = (shut_down, [])
  accept_tunnels machine allowed_peers (incoming_ended ∷ waited) = (ended_unexpectedly, [])
  accept_tunnels machine allowed_peers (tunnel peer s ∷ waited) =
      let (ending, sessions) = accept_tunnels machine allowed_peers waited in
      (ending, handle_tunnel machine allowed_peers peer s ∷ sessions)
