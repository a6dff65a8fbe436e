-- ===== src/Relay/Hop.antt =====
-- What one relay does with a chain that reaches its next hop.
use sape.Prelude.{
  ℕ, ◌+◌, ◌-◌, ◌≤◌, ◌<◌, ◌≡◌, true, some, List, [], ◌∷◌, ◌++◌, append-nil, append_assoc, arith,
  length,
}
use sape.Prelude.Result.{Result, ok, err}
use sape.Prelude.Exec.{◌>>◌}
use sape.Text.{Text}
use sape.Address.{PeerId, Multiaddr, peer_id_from_multiaddr}
use sape.Wire.{Stream}
use sape.Wire.Frame.{framed, IsSendable, write-sendable, read-sendable}
use sape.Jump
use sape.Jump.{JumpChain, JumpResult, jump_ok, jump_error}
use sape.Relay.{
  Action, dial, try_open, bridge, Session, Surroundings, RelayError, downstream_failed, act,
  Handler, on_inbound, forward_rest, outbound_protocol, send_dial, process_chain,
  handle_jump_request,
}
use sape.Relay.Retry.{failures, AllFail, open_outbound-first_success}

-- The relay gets through to the hop: the text is an address with a peer id, the swarm takes the
-- command to dial it, and the attempt `tries` is the first to open a stream to that peer.
pub record Reaches (env : Surroundings) (hop protocol : Text) : Type 0 where
  pub addr : Multiaddr
  pub peer : PeerId
  pub tries : ℕ
  pub stream : Stream
  pub parsed : env.forms.multiaddr_from_str hop ≡ ok addr
  pub named : peer_id_from_multiaddr addr ≡ some peer
  pub commanded : env.dial_channel_open ≡ true
  pub within : tries < 10
  pub failed : AllFail env peer protocol 0 tries
  pub opened : env.opens peer protocol tries ≡ ok stream

-- What is done to reach the hop.
abbrev pub reaching :
    {env : Surroundings} {hop protocol : Text} → Reaches env hop protocol → List Action
reaching {protocol} r =
    dial r.addr ∷ (failures r.peer protocol 0 r.tries ++ try_open r.peer protocol ∷ [])

module _ (env : Surroundings) where
  -- The chain after its first hop is reached.
  abbrev pub bridge_rest : List Text → Handler (Unit {0})
  bridge_rest rest = do
    forward_rest env rest
    on_inbound RelayError.io (Jump.write_jump_result env.results jump_ok)
    act bridge

  pub send_dial-open :
      (addr : Multiaddr) (s : Session)
      → env.dial_channel_open ≡ true
      → send_dial env addr s ≡ (ok tt, record s { actions = s.actions ++ dial addr ∷ [] })
  unfolding send_dial
  send_dial-open addr s h = ground (arith, h)

  pub process-reaches :
      (hop : Text) (rest : List Text) (r : Reaches env hop (outbound_protocol env rest))
      (s : Session)
      → process_chain env (hop ∷ rest) s
        ≡ bridge_rest rest (record s { outbound = r.stream; actions = s.actions ++ reaching r })
  unfolding process_chain
  process-reaches hop rest r s =
      let protocol = outbound_protocol env rest in
      let commanded = record s { actions = s.actions ++ dial r.addr ∷ [] } in
      rw (r.parsed, r.named, send_dial-open r.addr s r.commanded)
        (rw
          (open_outbound-first_success env r.peer protocol r.tries r.stream commanded r.within
            r.failed r.opened)
          (rw append_assoc))

  pub handle-process :
      (chain : JumpChain) (h : IsSendable env.chains chain) (s : Session) (rest : List ℕ)
      → s.inbound.incoming ≡ framed h.bytes ++ rest
      → handle_jump_request env s
        ≡ process_chain env chain.hops (record s { inbound = record s.inbound { incoming = rest } })
  unfolding handle_jump_request
  handle-process chain h s rest e = rw (read-sendable env.chains chain h s.inbound rest e)

  -- At the last hop the relay opens a tunnel stream, answers success, and bridges: nothing is
  -- written to the hop before the tunnel's own bytes.
  pub handle_jump_request-last :
      (hop : Text) (r : Reaches env hop env.tunnel_proto)
      (h : IsSendable env.chains (record { hops = hop ∷ [] })) (a : IsSendable env.results jump_ok)
      (s : Session) (rest : List ℕ)
      → s.inbound.incoming ≡ framed h.bytes ++ rest
      → length a.bytes + 4 ≤ s.inbound.room
      → handle_jump_request env s ≡ (
        ok tt,
        record {
          inbound = record {
            incoming = rest;
            outgoing = s.inbound.outgoing ++ framed a.bytes;
            room = s.inbound.room - (length a.bytes + 4);
          };
          outbound = r.stream;
          actions = s.actions ++ (reaching r ++ bridge ∷ []);
        },
      )
  unfolding forward_rest
  handle_jump_request-last hop r h a s rest e room =
      rw (handle-process (record { hops = hop ∷ [] }) h s rest e) (
        rw (process-reaches hop [] r (record s { inbound = record s.inbound { incoming = rest } }))
          (rw (write-sendable env.results jump_ok a (record s.inbound { incoming = rest }) room)
            (simp append_assoc)))

  -- The outcome of a relay whose next relay gave an answer.
  abbrev pub outcome_of : JumpResult → Result RelayError (Unit {0})
  outcome_of jump_ok = ok tt
  outcome_of (jump_error e) = err (downstream_failed e)

  abbrev pub bridge_of : JumpResult → List Action
  bridge_of jump_ok = bridge ∷ []
  bridge_of (jump_error e) = []

  -- Before the last hop the relay opens a jump stream, sends the rest of the chain on it, and
  -- passes the next relay's answer back as it came, an error too; it bridges exactly where that
  -- answer is success.
  pub handle_jump_request-middle :
      (hop next : Text) (hops : List Text) (r : Reaches env hop env.jump_proto)
      (answer : JumpResult) (h : IsSendable env.chains (record { hops = hop ∷ next ∷ hops }))
      (c : IsSendable env.chains (record { hops = next ∷ hops }))
      (a : IsSendable env.results answer) (s : Session) (rest rest' : List ℕ)
      → s.inbound.incoming ≡ framed h.bytes ++ rest
      → length a.bytes + 4 ≤ s.inbound.room
      → length c.bytes + 4 ≤ r.stream.room
      → r.stream.incoming ≡ framed a.bytes ++ rest'
      → handle_jump_request env s ≡ (
        outcome_of answer,
        record {
          inbound = record {
            incoming = rest;
            outgoing = s.inbound.outgoing ++ framed a.bytes;
            room = s.inbound.room - (length a.bytes + 4);
          };
          outbound = record {
            incoming = rest';
            outgoing = r.stream.outgoing ++ framed c.bytes;
            room = r.stream.room - (length c.bytes + 4);
          };
          actions = s.actions ++ (reaching r ++ bridge_of answer);
        },
      )
  unfolding forward_rest
  handle_jump_request-middle hop next hops r jump_ok h c a s rest rest' e room room' e' =
      rw (handle-process (record { hops = hop ∷ next ∷ hops }) h s rest e) (
        rw
          (process-reaches hop (next ∷ hops) r
            (record s { inbound = record s.inbound { incoming = rest } }))
          (rw
            (
              write-sendable env.chains (record { hops = next ∷ hops }) c r.stream room',
              read-sendable env.results jump_ok a
                  (record r.stream {
                    outgoing = r.stream.outgoing ++ framed c.bytes;
                    room = r.stream.room - (length c.bytes + 4);
                  })
                  rest' e',
              write-sendable env.results jump_ok a (record s.inbound { incoming = rest }) room,
            )
            (simp append_assoc)))
  handle_jump_request-middle hop next hops r (jump_error msg) h c a s rest rest' e room room' e' =
      rw (handle-process (record { hops = hop ∷ next ∷ hops }) h s rest e) (
        rw
          (process-reaches hop (next ∷ hops) r
            (record s { inbound = record s.inbound { incoming = rest } }))
          (rw
            (
              write-sendable env.chains (record { hops = next ∷ hops }) c r.stream room',
              read-sendable env.results (jump_error msg) a
                  (record r.stream {
                    outgoing = r.stream.outgoing ++ framed c.bytes;
                    room = r.stream.room - (length c.bytes + 4);
                  })
                  rest' e',
              write-sendable env.results (jump_error msg) a (record s.inbound { incoming = rest })
                  room,
            )
            (simp (append_assoc, append-nil))))
