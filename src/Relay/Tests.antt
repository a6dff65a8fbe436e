-- ===== src/Relay/Tests.antt =====
-- Jump requests on concrete streams.
use sape.Prelude.{ℕ, zero, suc, ◌+◌, ◌≡◌, refl, true, [], ◌∷◌, ◌++◌, ◌-◌, length, arith}
use sape.Prelude.Result.{Result, ok, err}
use sape.Text.{Text, codes}
use sape.Address.{PeerId, Multiaddr, p2p, peer_id_from_multiaddr}
use sape.Libp2p.Sample.{sample, parse}
use sape.Wire.{Bytes, Stream, u32_to_be_bytes}
use sape.Wire.Frame.{IsSendable, framed}
use sape.Jump.{JumpChain, JumpResult, jump_error}
use sape.Jump.Sample.{chain_codec, result_codec, result_sendable, decode_hops, encode_result}
use sape.Relay.{
  try_open, Session, Surroundings, not_connected, hop_error, open_outbound, handle_jump_request,
}
use sape.Relay.Retry.{
  failures, AllFail, slept, open_outbound-first_success, open_outbound-exhausted,
}
use sape.Relay.Hop.{Reaches, reaching, outcome_of, handle_jump_request-middle}
use sape.Relay.Bridge.{bridges, successes, handle_jump_request-bridges}

abbrev stream : Bytes → Stream
stream bytes = record { incoming = bytes; outgoing = []; room = 1000 }

-- The first attempt fails and every later one opens a stream with an answer on it.
abbrev second_try : Bytes → PeerId → Text → ℕ → Result Text Stream
second_try answer peer protocol zero = err (codes "busy")
second_try answer peer protocol (suc n) = ok (stream answer)

abbrev around : (PeerId → Text → ℕ → Result Text Stream) → Surroundings
around opens = record {
  forms = sample;
  chains = chain_codec;
  results = result_codec;
  tunnel_proto = codes "/sape/tunnel/1.0.0";
  jump_proto = codes "/sape/jump/1.0.0";
  dial_channel_open = true;
  opens = opens;
}

abbrev never : Surroundings
never = around (λ peer protocol n. err (codes "busy"))

abbrev answered : Bytes → Surroundings
answered answer = around (second_try answer)

abbrev start : Bytes → Session
start bytes = record { inbound = stream bytes; outbound = stream []; actions = [] }

open_outbound-first_success_example :
    open_outbound (answered []) (9 ∷ []) (codes "p") 10 0 (start []) ≡ (
      ok tt,
      record {
        inbound = stream [];
        outbound = stream [];
        actions = failures (9 ∷ []) (codes "p") 0 1 ++ try_open (9 ∷ []) (codes "p") ∷ [];
      },
    )
open_outbound-first_success_example =
    open_outbound-first_success (answered []) (9 ∷ []) (codes "p") 1 (stream []) (start [])
      (omega arith) ((codes "busy", refl), tt) refl

fails : (n from : ℕ) → AllFail never (9 ∷ []) (codes "p") from n
fails zero from = tt
fails (suc n) from = ((codes "busy", refl), fails n (from + 1))

abbrev busy_answer : JumpResult
busy_answer = jump_error (hop_error never (9 ∷ []) (codes "busy"))

open_outbound-exhausted_example :
    (open_outbound never (9 ∷ []) (codes "p") 10 0 (start []) ≡ (
      err (not_connected (hop_error never (9 ∷ []) (codes "busy"))),
      record (start []) {
        inbound = record {
          incoming = [];
          outgoing = framed (encode_result busy_answer);
          room = 1000 - (length (encode_result busy_answer) + 4);
        };
        actions = failures (9 ∷ []) (codes "p") 0 9 ++ try_open (9 ∷ []) (codes "p") ∷ [];
      },
    ))
    × (slept (open_outbound never (9 ∷ []) (codes "p") 10 0 (start [])).1.actions ≡ 22500)
open_outbound-exhausted_example =
    open_outbound-exhausted never (9 ∷ []) (codes "p") (codes "busy") (start [])
      (result_sendable busy_answer (omega arith)) (omega arith) (fails 9 0) refl

abbrev hop_addr : Multiaddr
hop_addr = p2p (9 ∷ []) ∷ []

abbrev hop_text : Text
hop_text = b'/' ∷ 6 ∷ 1 ∷ 9 ∷ []

reaches : (answer : Bytes) (protocol : Text) → Reaches (answered answer) hop_text protocol
unfolding parse peer_id_from_multiaddr
reaches answer protocol = record {
  addr = hop_addr;
  peer = 9 ∷ [];
  tries = 1;
  stream = stream answer;
  parsed = refl;
  named = refl;
  commanded = refl;
  within = omega arith;
  failed = ((codes "busy", refl), tt);
  opened = refl;
}

abbrev two_hops : JumpChain
two_hops = record { hops = hop_text ∷ (7 ∷ []) ∷ [] }

abbrev rest_hops : JumpChain
rest_hops = record { hops = (7 ∷ []) ∷ [] }

two_hops_sendable : IsSendable chain_codec two_hops
unfolding decode_hops
two_hops_sendable = record {
  bytes = 4 ∷ (hop_text ++ 1 ∷ 7 ∷ []);
  encoded = refl;
  decoded = refl;
  fits = omega arith;
}

rest_hops_sendable : IsSendable chain_codec rest_hops
unfolding decode_hops
rest_hops_sendable = record {
  bytes = 1 ∷ 7 ∷ [];
  encoded = refl;
  decoded = refl;
  fits = omega arith;
}

abbrev error_sendable : IsSendable result_codec (jump_error (codes "no"))
error_sendable = result_sendable (jump_error (codes "no")) (omega arith)

abbrev one_hop_bytes : Bytes
one_hop_bytes = 0 ∷ 0 ∷ 0 ∷ 5 ∷ 4 ∷ hop_text

abbrev two_hops_bytes : Bytes
two_hops_bytes = 0 ∷ 0 ∷ 0 ∷ 7 ∷ 4 ∷ (hop_text ++ 1 ∷ 7 ∷ [])

abbrev error_bytes : Bytes
error_bytes = 0 ∷ 0 ∷ 0 ∷ 3 ∷ 1 ∷ codes "no"

handle_jump_request-middle_example :
    handle_jump_request (answered error_bytes) (start two_hops_bytes) ≡ (
      outcome_of (answered error_bytes) (jump_error (codes "no")),
      record {
        inbound = record { incoming = []; outgoing = error_bytes; room = 993 };
        outbound = record { incoming = []; outgoing = 0 ∷ 0 ∷ 0 ∷ 2 ∷ 1 ∷ 7 ∷ []; room = 994 };
        actions = reaching (reaches error_bytes (codes "/sape/jump/1.0.0"));
      },
    )
unfolding two_hops_sendable rest_hops_sendable u32_to_be_bytes reaches
handle_jump_request-middle_example =
    handle_jump_request-middle (answered error_bytes) hop_text (7 ∷ []) []
      (reaches error_bytes (codes "/sape/jump/1.0.0")) (jump_error (codes "no")) two_hops_sendable
      rest_hops_sendable error_sendable (start two_hops_bytes) [] [] refl (omega arith)
      (omega arith) refl

handle_jump_request-bridges_example :
    bridges (handle_jump_request never (start one_hop_bytes)).1.actions
    ≡ 0 + successes (handle_jump_request never (start one_hop_bytes)).0
handle_jump_request-bridges_example = handle_jump_request-bridges never (start one_hop_bytes)
