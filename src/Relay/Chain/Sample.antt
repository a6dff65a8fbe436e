-- ===== src/Relay/Chain/Sample.antt =====
-- Two relays of a chain of two hops, with any answers.
use sape.Prelude.{ℕ, refl, true, List, [], ◌∷◌, ◌++◌, arith}
use sape.Prelude.Result.{Result}
use sape.Text.{Text, codes}
use sape.Address.{PeerId, Multiaddr, p2p}
use sape.Libp2p.Sample.{sample}
use sape.Wire.{Bytes, Stream}
use sape.Wire.Frame.{IsSendable}
use sape.Jump.Sample.{chain_codec, result_codec, decode_hops}
use sape.Relay.Chain.{Network, Relay}

abbrev pub net : Network
net = record {
  chains = chain_codec;
  results = result_codec;
  tunnel_proto = codes "/sape/tunnel/1.0.0";
  jump_proto = codes "/sape/jump/1.0.0";
}

abbrev pub stream : Bytes → Stream
stream bytes = record { incoming = bytes; outgoing = []; room = 70000 }

abbrev pub hop_text : Text
hop_text = b'/' ∷ 6 ∷ 1 ∷ 9 ∷ []

abbrev pub hop_addr : Multiaddr
hop_addr = p2p (9 ∷ []) ∷ []

abbrev pub second_bytes : Bytes
second_bytes = 4 ∷ hop_text

abbrev pub first_bytes : Bytes
first_bytes = 4 ∷ (hop_text ++ 4 ∷ hop_text)

abbrev pub relay : (PeerId → Text → ℕ → Result Text Stream) → Bytes → Relay
relay opens bytes = record {
  forms = sample;
  dial_channel_open = true;
  opens = opens;
  session = record { inbound = stream bytes; outbound = stream []; actions = [] };
}

abbrev pub first_hops : List Text
first_hops = hop_text ∷ hop_text ∷ []

abbrev pub second_hops : List Text
second_hops = hop_text ∷ []

unfoldable pub first_sendable : IsSendable chain_codec (record { hops = first_hops })
unfolding decode_hops
first_sendable = record { bytes = first_bytes; encoded = refl; decoded = refl; fits = omega arith }

unfoldable pub second_sendable : IsSendable chain_codec (record { hops = second_hops })
unfolding decode_hops
second_sendable = record {
  bytes = second_bytes;
  encoded = refl;
  decoded = refl;
  fits = omega arith;
}
