-- ===== src/Dial/EndToEnd.antt =====
-- A dialler, the relays of its jump chain, and a listener that the last of them opens its stream to.
mod Tests
use sape.Prelude.{
  ℕ, zero, suc, ◌+◌, ◌-◌, ◌*◌, ◌/◌, ◌%◌, ◌≤◌, ◌<◌, ◌≡◌, refl, sym, ap, ◌∙◌, ◌≢◌, ◌↔◌, ◌⊎◌, inl, inr,
  Bool, true, false, not, ◌&&◌, ◌||◌, Option, none, some, List, [], ◌∷◌, ◌++◌, map, append-nil,
  append_assoc, arith, ltb, leb, ◌==◌, if◌then◌else◌, ==_iff, Bool-cases, Option-cases, length,
  get_elem?, take, drop, length-append, take-append, drop-append, All, All-append,
}
use sape.Prelude.Result.{Result, ok, err}
use sape.Prelude.Exec.{Exec, continue, map_error}
use sape.Text.{Text}
use sape.Address.{PeerId}
use sape.Wire.{Bytes, Stream, Codec, read_frame, write_frame}
use sape.Wire.Frame.{framed, IsSendable, write-sendable}
use sape.Wire.Written.{Appends, unchanged, continue-Appends, map_error-Appends, write_frame-Appends}
use sape.Tunnel.{TunnelRequest, netcat}
use sape.Jump.{JumpChain, JumpResult, jump_ok, jump_error, write_jump_chain}
use sape.Forward.{Machine, netcat_session}
use sape.Listen.{serve_request, handle_tunnel}
use sape.Listen.Access.{IsRefused}
use sape.Listen.Sessions.{handle_tunnel-read}
use sape.Relay.Forwarded.{read_frame-sent, handle_jump_request-forwards}
use sape.Relay.Hop.{handle_jump_request-last, handle_jump_request-middle}
use sape.Relay.Chain.{
  Network, Relay, Linked, last, gives_up, passes_on, chain_result, around, after, written_back,
  IsWired, Answers, handle_jump_request-chain, passed-asked, passed-answered,
}
use sape.Dial.{
  DialMode, netcat_mode, local_forward_mode, reverse_forward_mode, socks5_mode, JumpFailure,
  stream_error, check_answer, start_jumped, jump_session,
}
use sape.Dial.Jumps.{outcome_of, request_behind, jump_session-answered}

module _ (chains : Codec JumpChain) (results : Codec JumpResult)
    (requests : Codec TunnelRequest) where
  start_jumped-Appends :
      (mode : DialMode) (s : Stream) → Appends s (start_jumped chains results requests mode s)
  start_jumped-Appends netcat_mode s =
      map_error-Appends stream_error (write_frame requests netcat) s
        (write_frame-Appends requests netcat s)
  start_jumped-Appends (local_forward_mode p t) s = unchanged s s refl
  start_jumped-Appends (reverse_forward_mode p t g) s = unchanged s s refl
  start_jumped-Appends (socks5_mode p) s = unchanged s s refl

  check_answer-Appends :
      (answer : JumpResult) (s : Stream) → Appends s (check_answer chains results requests answer s)
  check_answer-Appends jump_ok s = unchanged s s refl
  check_answer-Appends (jump_error e) s = unchanged s s refl

  -- The chain is the first that a dialler writes, whatever it is answered.
  jump_session-writes :
      (chain : JumpChain) (c : IsSendable chains chain) (mode : DialMode) (s : Stream)
      → length c.bytes + 4 ≤ s.room
      → (extra : Bytes) × ((jump_session chains results requests chain mode s).1.outgoing
          ≡ (s.outgoing ++ framed c.bytes) ++ extra)
  unfolding jump_session
  jump_session-writes chain c mode s room =
      let written = record s {
        outgoing = s.outgoing ++ framed c.bytes;
        room = s.room - (length c.bytes + 4);
      } in
      rw (write-sendable chains chain c s room) (
        continue-Appends written (map_error stream_error (read_frame results) written) _
          (map_error-Appends stream_error (read_frame results) written
            (unchanged written (read_frame results written).1 (read_frame-sent results written)))
          (λ answer t.
            continue-Appends t (check_answer chains results requests answer t) _
              (check_answer-Appends answer t) (λ u v. start_jumped-Appends mode v)))

module _ (net : Network) where
  -- What the last relay has left of the stream it was asked on, which its bridge copies to the target.
  abbrev pub delivered :
      {hops : List Text} {relays : List Relay} {fates : List (Option Text)}
      → Linked net hops relays fates
      → Bytes
  delivered (last hop relay takes r) = (after net relay).1.inbound.incoming
  delivered (gives_up hop hops relay fates takes x) = []
  delivered (passes_on hop next hops relay relay' relays fates takes c r wired linked) =
      delivered linked

  -- Every hop is reached, and what a relay has left of its stream is what its bridge copies to the
  -- next one, behind the rest of the chain.
  abbrev pub AreBridged :
      {hops : List Text} {relays : List Relay} {fates : List (Option Text)}
      → Linked net hops relays fates
      → Type 0
  AreBridged (last hop relay takes r) = Unit
  AreBridged (gives_up hop hops relay fates takes x) = ⊥
  AreBridged (passes_on hop next hops relay relay' relays fates takes c r wired linked) =
      (wired.more ≡ (after net relay).1.inbound.incoming) × AreBridged linked

  bridged-ok :
      {hops : List Text} {relays : List Relay} {fates : List (Option Text)}
      (linked : Linked net hops relays fates)
      → AreBridged linked
      → chain_result fates ≡ jump_ok
  bridged-ok (last hop relay takes r) b = refl
  bridged-ok (gives_up hop hops relay fates takes x) b = absurd b
  bridged-ok (passes_on hop next hops relay relay' relays fates takes c r wired linked) b =
      bridged-ok linked b.1

  -- What follows the chain on the first relay's stream arrives behind the last relay.
  delivered-first :
      {hops : List Text} {relay : Relay} {relays : List Relay} {fates : List (Option Text)}
      (linked : Linked net hops (relay ∷ relays) fates)
      (a : IsSendable net.results (chain_result fates))
      (h : IsSendable net.chains (record { hops = hops })) (rest : Bytes)
      → relay.session.inbound.incoming ≡ framed h.bytes ++ rest
      → AreBridged linked
      → delivered linked ≡ rest
  delivered-first (last hop relay takes r) a h rest e b =
      ap (λ q. q.1.inbound.incoming)
        (handle_jump_request-last (around net relay) hop r h a relay.session rest e
          (omega (arith, a.fits)))
  delivered-first (gives_up hop hops relay fates takes x) a h rest e b = absurd b
  delivered-first {fates} (passes_on hop next hops relay relay' relays later takes c r wired linked)
        a h rest e b =
      let asked = passed-asked net hop next hops relay relay' r wired h c rest e in
      let behind = handle_jump_request-chain net linked a c wired.more asked in
      let answered =
        passed-answered net relay relay' r.stream wired (chain_result later) a behind.0 in
      delivered-first linked a c wired.more asked b.1
      ∙ b.0
      ∙ ap (λ q. q.1.inbound.incoming)
          (handle_jump_request-middle (around net relay) hop next hops r (chain_result later) h c a
            relay.session rest wired.back e (omega (arith, a.fits))
            (omega (arith, c.fits, wired.takes)) answered)

serves_netcat :
    (machine : Machine) (peer : PeerId) (t : Stream)
    → serve_request machine peer netcat t ≡ (netcat_session ∷ [], t)
unfolding serve_request
serves_netcat machine peer t = refl

module _ (net : Network) (requests : Codec TunnelRequest) where
  -- What a dialler in netcat mode makes of its stream to the first jump.
  abbrev pub dialled : List Text → Stream → Result JumpFailure (Unit {0}) × Stream
  dialled hops s =
      jump_session net.chains net.results requests (record { hops = hops }) netcat_mode s

  -- The dialler's stream and the first relay's carry each other's bytes.
  pub record IsDialled (hops : List Text) (relay : Relay) (s : Stream) : Type 0 where
    pub rest : Bytes
    pub back : Bytes
    pub to_relay :
        relay.session.inbound.incoming
        ≡ drop (length s.outgoing) (dialled hops s).1.outgoing ++ rest
    pub from_relay : s.incoming ≡ written_back net relay ++ back

  asked_of :
      (hops : List Text) (relay : Relay) (s : Stream) (met : IsDialled hops relay s)
      (h : IsSendable net.chains (record { hops = hops }))
      → length h.bytes + 4 ≤ s.room
      → (extra : Bytes) × ((relay.session.inbound.incoming ≡ framed h.bytes ++ (extra ++ met.rest))
          × ((dialled hops s).1.outgoing ≡ (s.outgoing ++ framed h.bytes) ++ extra))
  asked_of hops relay s met h room =
      let (extra, wrote) =
        jump_session-writes net.chains net.results requests (record { hops = hops }) h netcat_mode s
          room in
      (
        extra,
        (
          met.to_relay
              ∙ ap (λ o. drop (length s.outgoing) o ++ met.rest)
                  (wrote ∙ append_assoc s.outgoing (framed h.bytes) extra)
              ∙ ap (λ o. o ++ met.rest) (drop-append s.outgoing (framed h.bytes ++ extra))
              ∙ append_assoc (framed h.bytes) extra met.rest,
          wrote,
        ),
      )

  module _ {hops : List Text} {relay : Relay} {relays : List Relay} {fates : List (Option Text)}
      (linked : Linked net hops (relay ∷ relays) fates)
      (a : IsSendable net.results (chain_result fates))
      (h : IsSendable net.chains (record { hops = hops })) (n : IsSendable requests netcat)
      (s : Stream) (met : IsDialled hops relay s) where
    -- A dialler's jump session against the relays of its chain: it starts its netcat session exactly
    -- where every hop is reached, and otherwise fails with the very reason of the one relay that did
    -- not get through, without having sent its request. The relays are linked, the answer, the chain
    -- and the request fit a frame, and the dialler's stream carries what it writes.
    pub jump_session-chain :
        length h.bytes + (length n.bytes + 8) ≤ s.room
        → ((dialled hops s).0 ≡ outcome_of (chain_result fates))
          × (((dialled hops s).1.outgoing
                ≡ s.outgoing ++ (framed h.bytes ++ request_behind (chain_result fates) n.bytes))
              × ((dialled hops s).1.incoming ≡ met.back))
    jump_session-chain room =
        let (extra, (asked, wrote)) = asked_of hops relay s met h (omega (arith, room)) in
        let behind = handle_jump_request-chain net linked a h (extra ++ met.rest) asked in
        let answered : s.incoming ≡ framed a.bytes ++ met.back =
          met.from_relay
          ∙ ap (λ o. drop (length relay.session.inbound.outgoing) o ++ met.back) behind.0.0
          ∙ ap (λ o. o ++ met.back) (drop-append relay.session.inbound.outgoing (framed a.bytes)) in
        jump_session-answered net.chains net.results requests (record { hops = hops }) h
          (chain_result fates) a n s met.back answered room

    -- Where every hop is reached and the relays' bridges copy, a listener that the last relay's
    -- stream leads to reads the dialler's request and starts a netcat session, with what the dialler
    -- sends after its request left to read, and the dialler starts its own. The listener does not
    -- turn away the peer that it sees, which is the last relay; the chain and the request fit a frame,
    -- and the dialler's stream carries them.
    pub jump_session-handle_tunnel :
        (machine : Machine) (allowed : List PeerId) (peer : PeerId) (t : Stream)
        → length h.bytes + (length n.bytes + 8) ≤ s.room
        → AreBridged net linked
        → t.incoming ≡ delivered net linked
        → (¬ IsRefused allowed peer)
        → ((dialled hops s).0 ≡ ok tt)
          × (handle_tunnel requests machine allowed peer t
              ≡ (netcat_session ∷ [], record t { incoming = met.rest }))
    jump_session-handle_tunnel machine allowed peer t room bridges brought allows =
        let reached = bridged-ok net linked bridges in
        let session = jump_session-chain room in
        let asked : relay.session.inbound.incoming
            ≡ framed h.bytes ++ (framed n.bytes ++ met.rest) =
          met.to_relay
          ∙ ap (λ o. drop (length s.outgoing) o ++ met.rest)
              (session.1.0
                ∙ ap (λ c. s.outgoing ++ (framed h.bytes ++ request_behind c n.bytes)) reached)
          ∙ ap (λ o. o ++ met.rest) (drop-append s.outgoing (framed h.bytes ++ framed n.bytes))
          ∙ append_assoc (framed h.bytes) (framed n.bytes) met.rest in
        let arrived =
          brought ∙ delivered-first net linked a h (framed n.bytes ++ met.rest) asked bridges in
        (
          session.0 ∙ ap outcome_of reached,
          handle_tunnel-read requests machine allowed peer netcat n t met.rest allows arrived
              ∙ serves_netcat machine peer (record t { incoming = met.rest }),
        )
