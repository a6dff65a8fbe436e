-- ===== src/Dial/EndToEnd/Tests.antt =====
-- A dialler, two relays and a listener, on concrete streams.
use sape.Prelude.{
  ◌≡◌, refl, sym, ap, ◌∙◌, Option, none, List, [], ◌∷◌, ◌++◌, append-nil, append_assoc, arith,
}
use sape.Prelude.Result.{ok}
use sape.Text.{Text, codes}
use sape.Address.{peer_id_from_multiaddr}
use sape.Libp2p.Sample.{parse}
use sape.Wire.{Bytes, Stream}
use sape.Wire.Frame.{framed, IsSendable}
use sape.Tunnel.{netcat}
use sape.Tunnel.Sample.{sample, sendable}
use sape.Jump.{jump_ok}
use sape.Jump.Sample.{chain_codec, result_codec, result_sendable}
use sape.Forward.{Machine, netcat_session}
use sape.Listen.{handle_tunnel}
use sape.Relay.Hop.{Reaches, handle_jump_request-last, handle_jump_request-middle}
use sape.Relay.Forwarded.{handle_jump_request-forwards}
use sape.Relay.Chain.Sample.{
  net, stream, hop_text, hop_addr, relay, second_bytes, first_bytes, first_hops, first_sendable,
  second_sendable,
}
use sape.Relay.Chain.{Relay, Linked, last, passes_on, around, after, written_back, IsWired}
use sape.Dial.Jumps.{jump_session-answered}
use sape.Dial.EndToEnd.{dialled, IsDialled, jump_session-chain, jump_session-handle_tunnel}

abbrev ok_sendable : IsSendable result_codec jump_ok
ok_sendable = result_sendable jump_ok (omega arith)

abbrev netcat_sendable : IsSendable sample netcat
netcat_sendable = sendable netcat (omega arith)

-- The dialler's request, and the first byte of its session.
abbrev request : Bytes
request = framed netcat_sendable.bytes ++ 42 ∷ []

abbrev second : Relay
second = relay (λ peer protocol n. ok (stream [])) (framed second_bytes ++ request)

abbrev first : Relay
first =
    relay (λ peer protocol n. ok (stream (framed ok_sendable.bytes)))
      (framed first_bytes ++ request)

second_reaches : Reaches (around net second) hop_text (codes "/sape/tunnel/1.0.0")
unfolding parse peer_id_from_multiaddr
second_reaches = record {
  addr = hop_addr;
  peer = 9 ∷ [];
  tries = 0;
  stream = stream [];
  parsed = refl;
  named = refl;
  commanded = refl;
  within = omega arith;
  failed = tt;
  opened = refl;
}

first_reaches : Reaches (around net first) hop_text (codes "/sape/jump/1.0.0")
unfolding parse peer_id_from_multiaddr
first_reaches = record {
  addr = hop_addr;
  peer = 9 ∷ [];
  tries = 0;
  stream = stream (framed ok_sendable.bytes);
  parsed = refl;
  named = refl;
  commanded = refl;
  within = omega arith;
  failed = tt;
  opened = refl;
}

abbrev client : Stream
client = stream (framed ok_sendable.bytes)

second_answers : written_back net second ≡ framed ok_sendable.bytes
unfolding second_reaches second_sendable
second_answers =
    ap (λ r. r.1.inbound.outgoing)
      (handle_jump_request-last (around net second) hop_text second_reaches second_sendable
        ok_sendable second.session request refl (omega arith))

wired : IsWired net first second (stream (framed ok_sendable.bytes))
unfolding first_sendable second_sendable first_reaches
wired = record {
  more = request;
  back = [];
  takes = omega arith;
  to_next = sym (
      ap (λ o. o ++ request)
        (handle_jump_request-forwards (around net first) hop_text hop_text [] first_reaches
          first_sendable second_sendable first.session request refl (omega arith)));
  from_next = sym (append-nil (written_back net second) ∙ second_answers);
}

abbrev fates : List (Option Text)
fates = none ∷ none ∷ []

linked : Linked net first_hops (first ∷ second ∷ []) fates
unfolding first_reaches second_reaches
linked =
    passes_on hop_text hop_text [] first second [] (none ∷ []) (omega arith) second_sendable
      first_reaches wired (last hop_text second (omega arith) second_reaches)

first_kept : (after net first).1.inbound.incoming ≡ request
unfolding first_reaches first_sendable second_sendable
first_kept =
    ap (λ r. r.1.inbound.incoming)
      (handle_jump_request-middle (around net first) hop_text hop_text [] first_reaches jump_ok
        first_sendable second_sendable ok_sendable first.session request [] refl (omega arith)
        (omega arith) (sym (append-nil (framed ok_sendable.bytes))))

first_answers : written_back net first ≡ framed ok_sendable.bytes
unfolding first_reaches first_sendable second_sendable
first_answers =
    ap (λ r. r.1.inbound.outgoing)
      (handle_jump_request-middle (around net first) hop_text hop_text [] first_reaches jump_ok
        first_sendable second_sendable ok_sendable first.session request [] refl (omega arith)
        (omega arith) (sym (append-nil (framed ok_sendable.bytes))))

second_kept : (after net second).1.inbound.incoming ≡ request
unfolding second_reaches second_sendable
second_kept =
    ap (λ r. r.1.inbound.incoming)
      (handle_jump_request-last (around net second) hop_text second_reaches second_sendable
        ok_sendable second.session request refl (omega arith))

client_wrote :
    (dialled net sample first_hops client).1.outgoing
    ≡ framed first_bytes ++ framed netcat_sendable.bytes
unfolding first_sendable
client_wrote =
    (jump_session-answered chain_codec result_codec sample (record { hops = first_hops })
      first_sendable jump_ok ok_sendable netcat_sendable client []
      (sym (append-nil (framed ok_sendable.bytes))) (omega arith)).1.0

met : IsDialled net sample first_hops first client
met = record {
  rest = 42 ∷ [];
  back = [];
  to_relay = sym (
      ap (λ o. o ++ 42 ∷ []) client_wrote
      ∙ append_assoc (framed first_bytes) (framed netcat_sendable.bytes) (42 ∷ []));
  from_relay = sym (append-nil (written_back net first) ∙ first_answers);
}

jump_session-chain_example :
    ((dialled net sample first_hops client).0 ≡ ok tt)
    × (((dialled net sample first_hops client).1.outgoing
          ≡ framed first_bytes ++ framed netcat_sendable.bytes)
        × ((dialled net sample first_hops client).1.incoming ≡ []))
unfolding first_sendable met
jump_session-chain_example =
    jump_session-chain net sample linked ok_sendable first_sendable netcat_sendable client met
      (omega arith)

abbrev machine : Machine
machine = record { bind = λ addr. ok tt; connect = λ target. ok tt }

jump_session-handle_tunnel_example :
    ((dialled net sample first_hops client).0 ≡ ok tt)
    × (handle_tunnel sample machine [] (9 ∷ []) (stream request)
        ≡ (netcat_session ∷ [], stream (42 ∷ [])))
unfolding first_sendable met linked wired
jump_session-handle_tunnel_example =
    jump_session-handle_tunnel net sample linked ok_sendable first_sendable netcat_sendable client
      met machine [] (9 ∷ []) (stream request) (omega arith) (sym first_kept, tt) (sym second_kept)
      (λ r. r.0 refl)
