-- ===== src/Relay/Chain.antt =====
-- The relays of a jump chain, one after the other.
pub mod Sample
mod Tests
use sape.Prelude.{
  ℕ, zero, suc, ◌+◌, ◌-◌, ◌*◌, ◌/◌, ◌%◌, ◌≤◌, ◌<◌, ◌≡◌, refl, sym, ap, ◌∙◌, ◌≢◌, ◌↔◌, ◌⊎◌, inl, inr,
  Bool, true, false, not, ◌&&◌, ◌||◌, Option, none, some, List, [], ◌∷◌, ◌++◌, map, append-nil,
  append_assoc, arith, ltb, leb, ◌==◌, if◌then◌else◌, ==_iff, Bool-cases, Option-cases, length,
  get_elem?, take, drop, length-append, take-append, drop-append, All, All-append,
}
use sape.Prelude.Result.{Result, ok, err}
use sape.Prelude.Exec.{continue, match_result, ◌>>=◌, ◌>>◌}
use sape.Text.{Text}
use sape.Address.{PeerId, Multiaddr, peer_id_from_multiaddr}
use sape.Libp2p.{TextForms}
use sape.Wire.{Bytes, Stream, Codec, max_request_size}
use sape.Wire.Frame.{framed, IsSendable, write-sendable, read-sendable}
use sape.Jump
use sape.Jump.{JumpChain, JumpResult, jump_ok, jump_error}
use sape.Relay.{
  Action, dial, try_open, bridge, Session, Surroundings, RelayError, act, hop_error, not_connected,
  Handler, on_inbound, on_outbound, forward_rest, outbound_protocol, send_dial, process_chain,
  open_outbound, give_up, handle_jump_request, answer_back,
}
use sape.Relay.Bridge.{bridges, successes, handle_jump_request-bridges}
use sape.Relay.Forwarded.{handle_jump_request-forwards}
use sape.Relay.Retry.{failures, AllFail, open_outbound-give_up}
use sape.Relay.Hop.{
  Reaches, reaching, send_dial-open, handle-process, outcome_of, bridge_of,
  handle_jump_request-last, handle_jump_request-middle,
}

-- The relay does not get through to the hop: the text is an address with a peer id, the swarm takes
-- the command to dial it, and all ten attempts fail.
pub record Exhausts (env : Surroundings) (hop protocol : Text) : Type 0 where
  pub addr : Multiaddr
  pub peer : PeerId
  pub cause : Text
  pub parsed : env.forms.multiaddr_from_str hop ≡ ok addr
  pub named : peer_id_from_multiaddr addr ≡ some peer
  pub commanded : env.dial_channel_open ≡ true
  pub failed : AllFail env peer protocol 0 9
  pub last_failed : env.opens peer protocol 9 ≡ err cause

abbrev pub exhausting :
    {env : Surroundings} {hop protocol : Text} → Exhausts env hop protocol → List Action
exhausting {protocol} x =
    dial x.addr ∷ (failures x.peer protocol 0 9 ++ try_open x.peer protocol ∷ [])

module _ (env : Surroundings) where
  -- A relay that does not get through answers so and opens nothing.
  pub handle_jump_request-gives_up :
      (hop : Text) (rest : List Text) (x : Exhausts env hop (outbound_protocol env rest))
      (h : IsSendable env.chains (record { hops = hop ∷ rest }))
      (a : IsSendable env.results (jump_error (hop_error env x.peer x.cause))) (s : Session)
      (more : List ℕ)
      → s.inbound.incoming ≡ framed h.bytes ++ more
      → length a.bytes + 4 ≤ s.inbound.room
      → handle_jump_request env s ≡ (
        err (not_connected (hop_error env x.peer x.cause)),
        record {
          inbound = record {
            incoming = more;
            outgoing = s.inbound.outgoing ++ framed a.bytes;
            room = s.inbound.room - (length a.bytes + 4);
          };
          outbound = s.outbound;
          actions = s.actions ++ exhausting x;
        },
      )
  unfolding give_up process_chain
  handle_jump_request-gives_up hop rest x h a s more e room =
      rw (handle-process env (record { hops = hop ∷ rest }) h s more e) (
        let s1 = record s { inbound = record s.inbound { incoming = more } } in
        let s2 = record s1 { actions = s.actions ++ dial x.addr ∷ [] } in
        rw (x.parsed, x.named, send_dial-open env x.addr s1 x.commanded)
          (rw
            (open_outbound-give_up env x.peer (outbound_protocol env rest) x.cause s2 x.failed
              x.last_failed)
            (rw
              (write-sendable env.results (jump_error (hop_error env x.peer x.cause)) a
                (record s.inbound { incoming = more }) room)
              (rw append_assoc))))

-- What all relays agree on: postcard and the two protocols.
pub record Network : Type 0 where
  pub chains : Codec JumpChain
  pub results : Codec JumpResult
  pub tunnel_proto : Text
  pub jump_proto : Text

-- One relay at the start of its request.
pub record Relay : Type 0 where
  pub forms : TextForms
  pub dial_channel_open : Bool
  pub opens : PeerId → Text → ℕ → Result Text Stream
  pub session : Session

-- What becomes of the hops, from the first: each is reached, until one is not, for this reason.
abbrev pub chain_result : List (Option Text) → JumpResult
chain_result [] = jump_ok
chain_result (none ∷ fates) = chain_result fates
chain_result (some said ∷ fates) = jump_error said

abbrev pub bridged : JumpResult → ℕ
bridged jump_ok = 1
bridged (jump_error e) = 0

successes-outcome_of :
    (env : Surroundings) (answer : JumpResult) → successes (outcome_of env answer) ≡ bridged answer
successes-outcome_of env jump_ok = refl
successes-outcome_of env (jump_error e) = refl

module _ (net : Network) where
  abbrev pub around : Relay → Surroundings
  around relay = record {
    forms = relay.forms;
    chains = net.chains;
    results = net.results;
    tunnel_proto = net.tunnel_proto;
    jump_proto = net.jump_proto;
    dial_channel_open = relay.dial_channel_open;
    opens = relay.opens;
  }

  abbrev pub after : Relay → Result RelayError (Unit {0}) × Session
  after relay = handle_jump_request (around relay) relay.session

  -- What the relay wrote back on the stream of its request.
  abbrev pub written_back : Relay → Bytes
  written_back relay = drop (length relay.session.inbound.outgoing) (after relay).1.inbound.outgoing

  -- The stream of the request takes any answer.
  abbrev pub Takes : Relay → Type 0
  Takes relay = max_request_size + 4 ≤ relay.session.inbound.room

  -- A relay that reached the next one: what it sent there is what that one was asked, and what that
  -- one wrote back is what it gets.
  pub record IsWired (relay next : Relay) (stream : Stream) : Type 0 where
    pub more : Bytes
    pub back : Bytes
    pub takes : max_request_size + 4 ≤ stream.room
    pub to_next :
        next.session.inbound.incoming
        ≡ drop (length stream.outgoing) (after relay).1.outbound.outgoing ++ more
    pub from_next : stream.incoming ≡ written_back next ++ back

  -- Relays one after the other, the chain that the first is asked, and the fates of its hops.
  pub data Linked : List Text → List Relay → List (Option Text) → Type 0 where
    last :
        (hop : Text) (relay : Relay)
        → Takes relay
        → Reaches (around relay) hop net.tunnel_proto
        → Linked (hop ∷ []) (relay ∷ []) (none ∷ [])
    gives_up :
        (hop : Text) (hops : List Text) (relay : Relay) (fates : List (Option Text))
        → Takes relay
        → (x : Exhausts (around relay) hop (outbound_protocol (around relay) hops))
        → Linked (hop ∷ hops) (relay ∷ []) (some (hop_error (around relay) x.peer x.cause) ∷ fates)
    passes_on :
        (hop next : Text) (hops : List Text) (relay relay' : Relay) (relays : List Relay)
        (fates : List (Option Text))
        → Takes relay
        → IsSendable net.chains (record { hops = next ∷ hops })
        → (r : Reaches (around relay) hop net.jump_proto) → IsWired relay relay' r.stream
        → Linked (next ∷ hops) (relay' ∷ relays) fates
        → Linked (hop ∷ next ∷ hops) (relay ∷ relay' ∷ relays) (none ∷ fates)

  module _ (answer : JumpResult) (a : IsSendable net.results answer) where
    -- The relay wrote this answer back, and bridged its two streams if it is success.
    abbrev pub Answers : Relay → Type 0
    Answers relay =
        ((after relay).1.inbound.outgoing ≡ relay.session.inbound.outgoing ++ framed a.bytes)
        × (bridges (after relay).1.actions ≡ bridges relay.session.actions + bridged answer)

    answers :
        (relay : Relay)
        → (after relay).1.inbound.outgoing ≡ relay.session.inbound.outgoing ++ framed a.bytes
        → successes (after relay).0 ≡ bridged answer
        → Answers relay
    answers relay wrote ended =
        (wrote, rw (handle_jump_request-bridges (around relay) relay.session, ended) refl)

  -- What a relay that is reached is asked by the one before it.
  pub passed-asked :
      (hop next : Text) (hops : List Text) (relay relay' : Relay)
      (r : Reaches (around relay) hop net.jump_proto) (wired : IsWired relay relay' r.stream)
      (h : IsSendable net.chains (record { hops = hop ∷ next ∷ hops }))
      (c : IsSendable net.chains (record { hops = next ∷ hops })) (rest : Bytes)
      → relay.session.inbound.incoming ≡ framed h.bytes ++ rest
      → relay'.session.inbound.incoming ≡ framed c.bytes ++ wired.more
  passed-asked hop next hops relay relay' r wired h c rest e =
      wired.to_next
      ∙ ap (λ o. drop (length r.stream.outgoing) o ++ wired.more)
          (handle_jump_request-forwards (around relay) hop next hops r h c relay.session rest e
            (omega (arith, c.fits, wired.takes)))
      ∙ ap (λ o. o ++ wired.more) (drop-append r.stream.outgoing (framed c.bytes))

  -- What it is answered, once that one has its answer.
  pub passed-answered :
      (relay relay' : Relay) (stream : Stream) (wired : IsWired relay relay' stream)
      (answer : JumpResult) (a : IsSendable net.results answer)
      → Answers answer a relay'
      → stream.incoming ≡ framed a.bytes ++ wired.back
  passed-answered relay relay' stream wired answer a behind =
      wired.from_next
      ∙ ap (λ o. drop (length relay'.session.inbound.outgoing) o ++ wired.back) behind.0
      ∙ ap (λ o. o ++ wired.back) (drop-append relay'.session.inbound.outgoing (framed a.bytes))

  -- Relays that are linked by a chain all write the same answer back: the result of the chain,
  -- which is success if every hop is reached, and else the reason of the one relay that did not get
  -- through, after whom nobody is asked. Each of them bridges its two streams once in the first
  -- case, and none of them does in the other. Only the first relay is assumed to have been asked;
  -- any of the ten attempts at a hop may be the one that reaches it. The answer and the rests of the
  -- chain have to fit a frame, and a relay's stream to take them.
  pub handle_jump_request-chain :
      {hops : List Text} {relay : Relay} {relays : List Relay} {fates : List (Option Text)}
      → Linked hops (relay ∷ relays) fates
      → (a : IsSendable net.results (chain_result fates))
      → (h : IsSendable net.chains (record { hops = hops })) (rest : Bytes)
      → relay.session.inbound.incoming ≡ framed h.bytes ++ rest
      → All (Answers (chain_result fates) a) (relay ∷ relays)
  handle_jump_request-chain (last hop relay takes r) a h rest e =
      let done =
        handle_jump_request-last (around relay) hop r h a relay.session rest e
          (omega (arith, a.fits)) in
      (answers jump_ok a relay (rw done) (rw done), tt)
  handle_jump_request-chain (gives_up hop hops relay fates takes x) a h rest e =
      let done =
        handle_jump_request-gives_up (around relay) hop hops x h a relay.session rest e
          (omega (arith, a.fits)) in
      (
        answers (chain_result (some (hop_error (around relay) x.peer x.cause) ∷ fates)) a relay
            (rw done) (rw done),
        tt,
      )
  handle_jump_request-chain {fates}
        (passes_on hop next hops relay relay' relays later takes c r wired linked) a h rest e =
      let asked = passed-asked hop next hops relay relay' r wired h c rest e in
      let behind = handle_jump_request-chain linked a c wired.more asked in
      let answered = passed-answered relay relay' r.stream wired (chain_result later) a behind.0 in
      let done =
        handle_jump_request-middle (around relay) hop next hops r (chain_result later) h c a
          relay.session rest wired.back e (omega (arith, a.fits))
          (omega (arith, c.fits, wired.takes)) answered in
      (
        answers (chain_result later) a relay (rw done) (
            ap (λ q. successes q.0) done
            ∙ successes-outcome_of (around relay) (chain_result later)),
        behind,
      )
