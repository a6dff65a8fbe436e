-- ===== src/Relay.antt =====
-- src/relay.rs, `handle_jump_request`: one hop of a jump chain.
pub mod Retry
pub mod Hop
pub mod Bridge
pub mod Confined
pub mod Forwarded
pub mod Chain
pub mod Server
mod Tests
use sape.Prelude.{
  ℕ, zero, suc, ◌+◌, ◌-◌, ◌*◌, ◌/◌, ◌%◌, ◌≤◌, ◌<◌, ◌≡◌, refl, sym, ap, ◌∙◌, ◌≢◌, ◌↔◌, ◌⊎◌, inl, inr,
  Bool, true, false, not, ◌&&◌, ◌||◌, Option, none, some, List, [], ◌∷◌, ◌++◌, map, append-nil,
  append_assoc, arith, ltb, leb, ◌==◌, if◌then◌else◌, ==_iff, Bool-cases, Option-cases, length,
  get_elem?, take, drop, length-append, take-append, drop-append, All, All-append,
}
use sape.Prelude.Result.{Result, ok, err, ok_or, map_err}
use sape.Prelude.Exec.{Exec, pure, raise, lift, map_error, match_result, ◌>>=◌, ◌>>◌}
use sape.Text.{Text, codes}
use sape.Address.{PeerId, Multiaddr, peer_id_from_multiaddr}
use sape.Libp2p.{TextForms}
use sape.Wire.{Stream, IoError, Io, Codec}
use sape.Jump.{
  JumpChain, JumpResult, jump_ok, jump_error, read_jump_chain, write_jump_chain, read_jump_result,
  write_jump_result,
}

-- What the relay does outside its two streams, in order.
pub data Action : Type 0 where
  -- `SwarmCommand::Dial` is sent to the swarm's task
  dial : Multiaddr → Action
  try_open : PeerId → Text → Action
  -- milliseconds
  sleep : ℕ → Action
  -- the two streams are copied to one another
  bridge : Action

-- The stream of the request, the stream to the next hop once it is open, and what was done.
pub record Session : Type 0 where
  pub inbound : Stream
  pub outbound : Stream
  pub actions : List Action

pub data RelayError : Type 0 where
  -- failed reading the jump chain
  reading_chain : IoError → RelayError
  empty_chain : RelayError
  invalid_multiaddr : Text → RelayError
  -- the hop that names no peer
  missing_peer_id : Text → RelayError
  dial_channel_closed : RelayError
  -- the last error of `open_stream`, in its message
  not_connected : Text → RelayError
  downstream_failed : Text → RelayError
  io : IoError → RelayError
  unreachable : RelayError

-- What surrounds a request: libp2p's text forms, postcard, the two protocols, whether the swarm's
-- task still takes commands, and what `open_stream` gives at each attempt.
pub record Surroundings : Type 0 where
  pub forms : TextForms
  pub chains : Codec JumpChain
  pub results : Codec JumpResult
  pub tunnel_proto : Text
  pub jump_proto : Text
  pub dial_channel_open : Bool
  pub opens : PeerId → Text → ℕ → Result Text Stream

abbrev pub Handler : Type 0 → Type 0
Handler A = Exec Session RelayError A

abbrev pub act : Action → Handler (Unit {0})
act a s = (ok tt, record s { actions = s.actions ++ a ∷ [] })

abbrev pub on_inbound : {A : Type 0} → (IoError → RelayError) → Io A → Handler A
on_inbound f m s =
    match_result (m s.inbound) (λ a t. (ok a, record s { inbound = t }))
      (λ e t. (err (f e), record s { inbound = t }))

abbrev pub on_outbound : {A : Type 0} → (IoError → RelayError) → Io A → Handler A
on_outbound f m s =
    match_result (m s.outbound) (λ a t. (ok a, record s { outbound = t }))
      (λ e t. (err (f e), record s { outbound = t }))

abbrev pub set_outbound : Stream → Handler (Unit {0})
set_outbound t s = (ok tt, record s { outbound = t })

module _ (env : Surroundings) where
  abbrev pub hop_error : PeerId → Text → Text
  hop_error next_peer e =
      codes "failed to connect to hop "
      ++ (env.forms.peer_id_to_string next_peer ++ (codes ": " ++ e))

  -- The answer to a failed attempt that is the last.
  pub give_up : PeerId → Text → Handler (Unit {0})
  give_up next_peer e = do
    on_inbound io (write_jump_result env.results (jump_error (hop_error next_peer e)))
    raise (not_connected (hop_error next_peer e))

  -- The loop over the attempts, on the number of those left.
  pub open_outbound : PeerId → Text → ℕ → ℕ → Handler (Unit {0})
  open_outbound next_peer protocol zero attempt = raise unreachable
  open_outbound next_peer protocol (suc left) attempt =
      let again = open_outbound next_peer protocol left (attempt + 1) in
      (do
        act (try_open next_peer protocol)
        elim (env.opens next_peer protocol attempt) [
          | ok stream ↦ set_outbound stream
          | err e ↦
              if ltb attempt 9
              then (do act (sleep (500 * (attempt + 1))); again)
              else give_up next_peer e
        ])

  abbrev pub answer_back : JumpResult → Handler (Unit {0})
  answer_back jump_ok = pure tt
  answer_back (jump_error e) = do
    on_inbound io (write_jump_result env.results (jump_error e))
    raise (downstream_failed e)

  -- The rest of the chain goes to the next hop, whose answer is awaited.
  pub forward_rest : List Text → Handler (Unit {0})
  forward_rest [] = pure tt
  forward_rest (hop ∷ hops) = do
    on_outbound io (write_jump_chain env.chains (record { hops = hop ∷ hops }))
    result ← on_outbound io (read_jump_result env.results)
    answer_back result

  abbrev pub outbound_protocol : List Text → Text
  outbound_protocol [] = env.tunnel_proto
  outbound_protocol (hop ∷ hops) = env.jump_proto

  pub send_dial : Multiaddr → Handler (Unit {0})
  send_dial addr = if env.dial_channel_open then act (dial addr) else raise dial_channel_closed

  pub process_chain : List Text → Handler (Unit {0})
  process_chain [] = do
    on_inbound io (write_jump_result env.results (jump_error (codes "empty hop chain")))
    raise empty_chain
  process_chain (next_hop_str ∷ remaining_hops) = do
    next_hop ← lift (map_err invalid_multiaddr (env.forms.multiaddr_from_str next_hop_str))
    next_peer ← lift (ok_or (peer_id_from_multiaddr next_hop) (missing_peer_id next_hop_str))
    send_dial next_hop
    open_outbound next_peer (outbound_protocol remaining_hops) 10 0
    forward_rest remaining_hops
    on_inbound io (write_jump_result env.results jump_ok)
    act bridge

  pub handle_jump_request : Handler (Unit {0})
  handle_jump_request = do
    chain ← on_inbound reading_chain (read_jump_chain env.chains)
    process_chain chain.hops
