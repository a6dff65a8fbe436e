-- ===== src/Dial/Tests.antt =====
-- A dialler on concrete reports and answers.
use sape.Prelude.{ℕ, ◌≡◌, refl, true, none, some, List, [], ◌∷◌, ◌++◌, arith}
use sape.Prelude.Result.{Result, ok}
use sape.Text.{Text, codes}
use sape.Address.{
  PeerId, p2p, tcp, p2p_circuit, Multiaddr, relay_base_from_circuit_address, validate_relay_address,
}
use sape.Libp2p.Sample.{sample-IsFaithful}
use sape.Libp2p.{TextForms}
use sape.Target.{relay_circuit}
use sape.Wire.{Stream}
use sape.Wire.Frame.{IsSendable, framed}
use sape.Jump.{JumpChain, jump_error}
use sape.Jump.Sample.{chain_codec, result_sendable, decode_hops}
use sape.Swarm.{
  identify_sent, identify_received, connection_established, connect_and_identify,
  wait_for_peer_connection, wait_loop, never,
}
use sape.Dial.InTime.{resolve_target-ends}
use sape.Dial.Limits.{By, setup_timeout}
use sape.Dial.{Setup, resolve_target, jump_hops}
use sape.Cli.{DialOpt}
use sape.Dial.{reverse_forward_mode, parse_dial_mode}
use sape.Dial.Reach.{IsReached, resolve_target_sound}
use sape.Swarm.Waits.{timely}
use sape.Libp2p

abbrev relay : Multiaddr
relay = tcp 4001 ∷ p2p (1 ∷ []) ∷ []

abbrev friend : PeerId
friend = 2 ∷ []

abbrev circuit : Multiaddr
circuit = relay ++ p2p_circuit ∷ p2p friend ∷ []

abbrev accepts : Multiaddr → Result Text (Unit {0})
accepts addr = ok tt

abbrev namespace_new : Text → Result Text (Unit {0})
namespace_new code = ok tt

abbrev setup : Setup
setup = record {
  swarm = record {
    now = 0;
    arrivals =
        (10, identify_sent (1 ∷ []))
        ∷ (20, identify_received (1 ∷ []))
        ∷ (30, connection_established (1 ∷ []))
        ∷ (40, connection_established friend)
        ∷ [];
    dialed = [];
  };
  asked = [];
}

resolved : resolve_target accepts namespace_new (relay_circuit circuit) none setup ≡ (
  ok friend,
  record { swarm = record { now = 40; arrivals = []; dialed = relay ∷ circuit ∷ [] }; asked = [] },
)
unfolding resolve_target relay_base_from_circuit_address validate_relay_address connect_and_identify
    wait_for_peer_connection wait_loop
resolved = refl

resolve_target_sound_example :
    IsReached (relay_circuit circuit) none [] [] (timely never setup.swarm.arrivals) friend
resolve_target_sound_example =
    resolve_target_sound accepts namespace_new (relay_circuit circuit) none friend setup
      (record {
        swarm = record { now = 40; arrivals = []; dialed = relay ∷ circuit ∷ [] };
        asked = [];
      })
      resolved

resolve_target-ends_example : By setup_timeout (
  ok friend,
  record { swarm = record { now = 40; arrivals = []; dialed = relay ∷ circuit ∷ [] }; asked = [] },
)
unfolding resolve_target relay_base_from_circuit_address validate_relay_address connect_and_identify
    wait_for_peer_connection wait_loop
resolve_target-ends_example =
    resolve_target-ends accepts namespace_new (relay_circuit circuit) none setup tt

abbrev chain : JumpChain
chain = record { hops = (7 ∷ []) ∷ [] }

chain_sendable : IsSendable chain_codec chain
unfolding decode_hops
chain_sendable = record { bytes = 1 ∷ 7 ∷ []; encoded = refl; decoded = refl; fits = omega arith }

abbrev answer_bytes : List ℕ
answer_bytes = framed (result_sendable (jump_error (codes "no")) (omega arith)).bytes

abbrev stream : Stream
stream = record { incoming = answer_bytes ++ 9 ∷ []; outgoing = []; room = 100 }

abbrev two_hops : List Text
two_hops =
    Libp2p.Sample.sample.multiaddr_to_string relay
    ∷ Libp2p.Sample.sample.multiaddr_to_string circuit
    ∷ []

hops_made : jump_hops Libp2p.Sample.sample (relay_circuit circuit) (relay ∷ []) ≡ ok two_hops
unfolding jump_hops
hops_made = refl

abbrev reverse_opt : DialOpt
reverse_opt = record {
  target = relay_circuit circuit;
  relay_address = none;
  identity_file = none;
  secret_key_seed = none;
  jump = [];
  local_forward = none;
  remote_forward = some (record { bind_port = 9090; target = codes "localhost:3000" });
  socks = none;
  gateway_ports = true;
}

reverse_parsed :
    parse_dial_mode reverse_opt ≡ reverse_forward_mode 9090 (codes "localhost:3000") true
unfolding parse_dial_mode
reverse_parsed = refl
