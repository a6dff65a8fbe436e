-- ===== src/Relay/Confined.antt =====
-- All that a request makes a relay do outside its two streams.
pub mod Counts
mod Tests
use sape.Prelude.{
  ℕ, zero, suc, ◌+◌, ◌-◌, ◌*◌, ◌/◌, ◌%◌, ◌≤◌, ◌<◌, ◌≡◌, refl, sym, ap, ◌∙◌, ◌≢◌, ◌↔◌, ◌⊎◌, inl, inr,
  Bool, true, false, not, ◌&&◌, ◌||◌, Option, none, some, List, [], ◌∷◌, ◌++◌, map, append-nil,
  append_assoc, arith, ltb, leb, ◌==◌, if◌then◌else◌, ==_iff, Bool-cases, Option-cases, length,
  get_elem?, take, drop, length-append, take-append, drop-append, All, All-append,
}
use mathlib.Core.Path.{subst}
use sape.Prelude.Result.{Result, ok, err, ok_or, map_err, Result-cases}
use sape.Prelude.Exec.{raise, lift, continue, match_result, pure, ◌>>=◌, ◌>>◌}
use sape.Text.{Text, codes}
use sape.Address.{PeerId, Multiaddr, peer_id_from_multiaddr}
use sape.Wire.{Stream, Io, IoError}
use sape.Jump
use sape.Jump.{JumpChain, JumpResult, jump_ok, jump_error, read_jump_chain}
use sape.Relay.{
  Action, dial, try_open, sleep, bridge, Session, Surroundings, RelayError, unreachable, io,
  invalid_multiaddr, missing_peer_id, empty_chain, reading_chain, act, Handler, on_inbound,
  on_outbound, set_outbound, open_outbound, forward_rest, answer_back, outbound_protocol, send_dial,
  process_chain, handle_jump_request, give_up, hop_error, not_connected, downstream_failed,
  dial_channel_closed,
}
use sape.Relay.Retry.{slept}
use sape.Relay.Confined.Counts.{
  Adds, Adds-act, Adds-bind, Adds-idle, Adds-le, Adds-lift, Adds-on_inbound, Adds-on_outbound,
  Adds-raise, Extra, IsFor, dials, tries,
}

-- The waits before the attempts that are left, after this one.
abbrev waits : ℕ → ℕ → ℕ
waits zero attempt = 0
waits (suc left) attempt =
    let rest = waits left (attempt + 1) in (if ltb attempt 9 then 500 * (attempt + 1) else 0) + rest

module _ (env : Surroundings) (addr : Multiaddr) (peer : PeerId) (protocol : Text) where
  abbrev Peers : Action → Type 0
  Peers = IsFor addr peer protocol

  Adds-give_up : (p : PeerId) (e : Text) → Adds Peers 0 0 0 (give_up env p e)
  unfolding give_up
  Adds-give_up p e =
      Adds-bind Peers 0 0 0 0 0 0
        (on_inbound io (Jump.write_jump_result env.results (jump_error (hop_error env p e))))
        (λ u. raise (not_connected (hop_error env p e))) (Adds-on_inbound Peers io _)
        (λ u. Adds-raise Peers (not_connected (hop_error env p e)))

  Adds-answer_back : (r : JumpResult) → Adds Peers 0 0 0 (answer_back env r)
  Adds-answer_back jump_ok = Adds-lift Peers (ok tt)
  Adds-answer_back (jump_error e) =
      Adds-bind Peers 0 0 0 0 0 0
        (on_inbound io (Jump.write_jump_result env.results (jump_error e)))
        (λ u. raise (downstream_failed e)) (Adds-on_inbound Peers io _)
        (λ u. Adds-raise Peers (downstream_failed e))

  Adds-forward_rest : (hops : List Text) → Adds Peers 0 0 0 (forward_rest env hops)
  unfolding forward_rest
  Adds-forward_rest [] = Adds-lift Peers (ok tt)
  Adds-forward_rest (hop ∷ hops) =
      Adds-bind Peers 0 0 0 0 0 0
        (on_outbound io (Jump.write_jump_chain env.chains (record { hops = hop ∷ hops })))
        (λ u. on_outbound io (Jump.read_jump_result env.results) >>= answer_back env)
        (Adds-on_outbound Peers io _)
        (λ u.
          Adds-bind Peers 0 0 0 0 0 0 (on_outbound io (Jump.read_jump_result env.results))
            (answer_back env) (Adds-on_outbound Peers io _) Adds-answer_back)

  Adds-send_dial : Adds Peers 0 1 0 (send_dial env addr)
  unfolding send_dial
  Adds-send_dial = elim (Bool-cases env.dial_channel_open) [
    | inl e ↦ rw e (Adds-act Peers (dial addr) refl)
    | inr e ↦ rw e (Adds-idle Peers 0 1 0 (raise dial_channel_closed) (λ s. refl))
  ]

  Adds-attempt :
      (attempt n ms : ℕ) (again : Handler (Unit {0})) (r : Result Text Stream)
      → Adds Peers n 0 ms again
      → Adds Peers n 0
          ((if ltb attempt 9 then 500 * (attempt + 1) else 0) + ms)
          {A = Unit {0}}
          (elim r [
            | ok stream ↦ set_outbound stream
            | err e ↦
                if ltb attempt 9
                then (do act (sleep (500 * (attempt + 1))); again)
                else give_up env peer e
          ])
  Adds-attempt attempt n ms again (ok stream) a =
      Adds-idle Peers n 0 _ (set_outbound stream) (λ s. refl)
  Adds-attempt attempt n ms again (err e) a = elim (Bool-cases (ltb attempt 9)) [
    | inl l ↦ rw l (
        Adds-le Peers n 0 (500 * (attempt + 1) + ms) _
          (Adds-bind Peers 0 0 (500 * (attempt + 1)) n 0 ms (act (sleep (500 * (attempt + 1))))
            (λ u. again)
            (Adds-le Peers 0 0 (500 * (attempt + 1)) (act (sleep (500 * (attempt + 1))))
              (Adds-act Peers (sleep (500 * (attempt + 1))) tt) (omega arith) (omega arith)
              (omega arith))
            (λ u. a))
          (omega arith) (omega arith) (omega arith))
    | inr l ↦ rw l (
        Adds-le Peers n 0 (0 + ms) (give_up env peer e) (Adds-give_up peer e) (omega arith)
          (omega arith) (omega arith))
  ]

  Adds-open_outbound :
      (left attempt : ℕ)
      → Adds Peers left 0 (waits left attempt) (open_outbound env peer protocol left attempt)
  unfolding open_outbound
  Adds-open_outbound zero attempt = Adds-raise Peers unreachable
  Adds-open_outbound (suc left) attempt =
      let again = open_outbound env peer protocol left (attempt + 1) in
      Adds-le Peers (suc left) 0 (waits (suc left) attempt) _
        (Adds-bind Peers 1 0 0 left 0 (waits (suc left) attempt) (act (try_open peer protocol)) _
          (Adds-act Peers (try_open peer protocol) (refl, refl))
          (λ u.
            Adds-attempt attempt left (waits left (attempt + 1)) again
              (env.opens peer protocol attempt) (Adds-open_outbound left (attempt + 1))))
        (omega arith) (omega arith) (omega arith)

  -- The part behind the dial command: the attempts, the rest of the chain, the answer, the bridge.
  abbrev served : List Text → Handler (Unit {0})
  served hops = open_outbound env peer protocol 10 0 >>= λ u. forward_rest env hops >>= λ u'.
      on_inbound io (Jump.write_jump_result env.results jump_ok) >>= λ u''. act bridge

  Adds-served : (hops : List Text) → Adds Peers 10 0 22500 (served hops)
  Adds-served hops =
      Adds-bind Peers 10 0 22500 0 0 0 (open_outbound env peer protocol 10 0) _
        (Adds-open_outbound 10 0)
        (λ u. Adds-bind Peers 0 0 0 0 0 0 (forward_rest env hops) _ (Adds-forward_rest hops) (λ u'.
          Adds-bind Peers 0 0 0 0 0 0 (on_inbound io (Jump.write_jump_result env.results jump_ok)) _
            (Adds-on_inbound Peers io _) (λ u''. Adds-act Peers bridge tt)))

-- What a request makes the relay do, if it comes to anything: its chain was read, its first hop names
-- a peer by its address, and all is for that peer.
pub record IsConfined (env : Surroundings) (s t : Session) : Type 0 where
  pub hop : Text
  pub rest : List Text
  pub addr : Multiaddr
  pub peer : PeerId
  pub read : (read_jump_chain env.chains s.inbound).0 ≡ ok (record { hops = hop ∷ rest })
  pub parsed : env.forms.multiaddr_from_str hop ≡ ok addr
  pub named : peer_id_from_multiaddr addr ≡ some peer
  pub done_for : Extra (IsFor addr peer (outbound_protocol env rest)) 10 1 22500 s.actions t.actions

module _ (env : Surroundings) where
  abbrev Confines : Session → Session → Type 0
  Confines s t = (t.actions ≡ s.actions) ⊎ IsConfined env s t

  confined_named :
      (s s' : Session) (hop : Text) (rest : List Text) (addr : Multiaddr) (peer : PeerId)
      → (read_jump_chain env.chains s.inbound).0 ≡ ok (record { hops = hop ∷ rest })
      → s'.actions ≡ s.actions
      → env.forms.multiaddr_from_str hop ≡ ok addr
      → peer_id_from_multiaddr addr ≡ some peer
      → Confines s
          ((send_dial env addr >>= λ u. served env addr peer (outbound_protocol env rest) rest)
            s').1
  confined_named s s' hop rest addr peer read same parsed named =
      let protocol = outbound_protocol env rest in
      inr (record {
        hop = hop;
        rest = rest;
        addr = addr;
        peer = peer;
        read = read;
        parsed = parsed;
        named = named;
        done_for =
            subst
              (λ xs.
                Extra (IsFor addr peer protocol) 10 1 22500 xs
                  ((send_dial env addr >>= λ u. served env addr peer protocol rest) s').1.actions)
              same
              ((Adds-bind (IsFor addr peer protocol) 0 1 0 10 0 22500 (send_dial env addr) _
                  (Adds-send_dial env addr peer protocol)
                  (λ u. Adds-served env addr peer protocol rest)).at
                s');
      })

  written-actions :
      (f : IoError → RelayError) (e : RelayError) (r : Result IoError (Unit {0}) × Stream)
      (s : Session)
      → (continue {B = Unit {0}}
          (match_result {C = Result RelayError (Unit {0}) × Session} r
            (λ a t. (ok a, record s { inbound = t }))
            (λ x t. (err (f x), record s { inbound = t })))
          (λ u. raise e)).1.actions
        ≡ s.actions
  written-actions f e (ok u, t) s = refl
  written-actions f e (err x, t) s = refl

  confined_chain :
      (s s' : Session) (hops : List Text)
      → (read_jump_chain env.chains s.inbound).0 ≡ ok (record { hops = hops })
      → s'.actions ≡ s.actions
      → Confines s (process_chain env hops s').1
  unfolding process_chain
  confined_chain s s' [] read same = inl (
      written-actions io empty_chain
        (Jump.write_jump_result env.results (jump_error (codes "empty hop chain")) s'.inbound) s'
      ∙ same)
  confined_chain s s' (hop ∷ rest) read same =
      elim (Result-cases (env.forms.multiaddr_from_str hop)) [
        | inr (e, bad) ↦ rw bad (inl same)
        | inl (addr, parsed) ↦ elim (Option-cases (peer_id_from_multiaddr addr)) [
          | inl unnamed ↦ rw (parsed, unnamed) (inl same)
          | inr (peer, named) ↦
              rw (parsed, named) (confined_named s s' hop rest addr peer read same parsed named)
        ]
      ]

  confined_read :
      (s : Session) (r : Result IoError JumpChain × Stream)
      → read_jump_chain env.chains s.inbound ≡ r
      → Confines s
          (continue
            (match_result {C = Result RelayError JumpChain × Session} r
              (λ a t. (ok a, record s { inbound = t }))
              (λ x t. (err (reading_chain x), record s { inbound = t })))
            (λ chain. process_chain env chain.hops)).1
  confined_read s (ok chain, t) h =
      confined_chain s (record s { inbound = t }) chain.hops (ap (λ r. r.0) h) refl
  confined_read s (err x, t) h = inl refl

  -- Whatever bytes a request brings, and whatever becomes of its attempts, a relay does nothing outside
  -- the request's two streams, or what it does is for the peer that the first hop of the chain that it
  -- read names: at most one command to dial that hop's address, at most ten attempts at a stream to
  -- that peer, for the tunnel's protocol at the last hop and the jump's before it, and waits of 22.5
  -- seconds together at most.
  pub handle_jump_request-IsConfined :
      (s : Session)
      → ((handle_jump_request env s).1.actions ≡ s.actions)
        ⊎ IsConfined env s (handle_jump_request env s).1
  unfolding handle_jump_request
  handle_jump_request-IsConfined s = confined_read s (read_jump_chain env.chains s.inbound) refl
