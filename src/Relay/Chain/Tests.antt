-- ===== src/Relay/Chain/Tests.antt =====
-- Two relays, of which the second does not get through to the last hop.
use sape.Prelude.{
  ℕ, zero, suc, ◌+◌, refl, sym, ap, ◌∙◌, Option, none, some, List, [], ◌∷◌, ◌++◌, append-nil, arith,
  All,
}
use sape.Prelude.Result.{ok, err}
use sape.Text.{Text, codes}
use sape.Address.{peer_id_from_multiaddr}
use sape.Libp2p.Sample.{sample, parse}
use sape.Wire.{Bytes}
use sape.Wire.Frame.{framed, IsSendable}
use sape.Jump.{jump_error}
use sape.Jump.Sample.{result_codec, result_sendable}
use sape.Relay.Retry.{AllFail}
use sape.Relay.Hop.{Reaches}
use sape.Relay.Forwarded.{handle_jump_request-forwards}
use sape.Relay.Chain.Sample.{
  net, stream, hop_text, hop_addr, relay, second_bytes, first_bytes, first_hops, first_sendable,
  second_sendable,
}
use sape.Relay.Chain.{
  Exhausts, Relay, Linked, gives_up, passes_on, around, after, written_back, IsWired, Answers,
  handle_jump_request-gives_up, handle_jump_request-chain,
}

abbrev said : Text
said = codes "failed to connect to hop " ++ (sample.peer_id_to_string (9 ∷ []) ++ codes ": busy")

abbrev error_bytes : Bytes
error_bytes = 1 ∷ said

abbrev second : Relay
second = relay (λ peer protocol n. err (codes "busy")) (framed second_bytes)

abbrev first : Relay
first = relay (λ peer protocol n. ok (stream (framed error_bytes))) (framed first_bytes)

reaches : Reaches (around net first) hop_text (codes "/sape/jump/1.0.0")
unfolding parse peer_id_from_multiaddr
reaches = record {
  addr = hop_addr;
  peer = 9 ∷ [];
  tries = 0;
  stream = stream (framed error_bytes);
  parsed = refl;
  named = refl;
  commanded = refl;
  within = omega arith;
  failed = tt;
  opened = refl;
}

fails : (n from : ℕ) → AllFail (around net second) (9 ∷ []) (codes "/sape/tunnel/1.0.0") from n
fails zero from = tt
fails (suc n) from = ((codes "busy", refl), fails n (from + 1))

exhausts : Exhausts (around net second) hop_text (codes "/sape/tunnel/1.0.0")
unfolding parse peer_id_from_multiaddr
exhausts = record {
  addr = hop_addr;
  peer = 9 ∷ [];
  cause = codes "busy";
  parsed = refl;
  named = refl;
  commanded = refl;
  failed = fails 9 0;
  last_failed = refl;
}

abbrev fates : List (Option Text)
fates = none ∷ some said ∷ []

error_sendable : IsSendable result_codec (jump_error said)
error_sendable = result_sendable (jump_error said) (omega arith)

wired : IsWired net first second (stream (framed error_bytes))
unfolding first_sendable second_sendable reaches exhausts error_sendable
wired = record {
  more = [];
  back = [];
  takes = omega arith;
  to_next = sym (
      append-nil (after net first).1.outbound.outgoing
      ∙ handle_jump_request-forwards (around net first) hop_text hop_text [] reaches first_sendable
          second_sendable first.session [] (sym (append-nil (framed first_bytes))) (omega arith));
  from_next = sym (
      append-nil (written_back net second)
      ∙ ap (λ r. r.1.inbound.outgoing)
          (handle_jump_request-gives_up (around net second) hop_text [] exhausts second_sendable
            error_sendable second.session [] (sym (append-nil (framed second_bytes)))
            (omega arith)));
}

linked : Linked net first_hops (first ∷ second ∷ []) fates
unfolding reaches exhausts
linked =
    passes_on hop_text hop_text [] first second [] (some said ∷ []) (omega arith) second_sendable
      reaches wired (gives_up hop_text [] second [] (omega arith) exhausts)

handle_jump_request-chain_example :
    All (Answers net (jump_error said) error_sendable) (first ∷ second ∷ [])
unfolding first_sendable
handle_jump_request-chain_example =
    handle_jump_request-chain net linked error_sendable first_sendable []
      (sym (append-nil (framed first_bytes)))
