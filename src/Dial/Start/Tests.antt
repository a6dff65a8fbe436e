-- ===== src/Dial/Start/Tests.antt =====
-- A dialler that reaches a friend behind a relay.
use sape.Prelude.{◌≡◌, refl, false, none, [], ◌∷◌, ◌++◌}
use sape.Prelude.Result.{ok, err}
use sape.Text.{codes}
use sape.Address.{
  PeerId, p2p, tcp, p2p_circuit, Multiaddr, relay_base_from_circuit_address, validate_relay_address,
}
use sape.Libp2p.Sample as Forms
use sape.Cli.{DialOpt}
use sape.Target.{relay_circuit}
use sape.Tunnel.Sample as Tunnels
use sape.Jump.Sample.{chain_codec, result_codec}
use sape.Proxy.{Socks5, tcp_connect}
use sape.Swarm.{
  identify_sent, identify_received, connection_established, connect_and_identify,
  wait_for_peer_connection, wait_loop,
}
use sape.Dial.{Setup, netcat_mode, parse_dial_mode, resolve_target}
use sape.Dial.Run.{Meeting, Running, run_dial_mode}
use sape.Dial.Start.{Dialler, running, run_dial}

abbrev relay : Multiaddr
relay = tcp 4001 ∷ p2p (1 ∷ []) ∷ []

abbrev friend : PeerId
friend = 2 ∷ []

abbrev circuit : Multiaddr
circuit = relay ++ p2p_circuit ∷ p2p friend ∷ []

abbrev opt : DialOpt
opt = record {
  target = relay_circuit circuit;
  relay_address = none;
  identity_file = none;
  secret_key_seed = none;
  jump = [];
  local_forward = none;
  remote_forward = none;
  socks = none;
  gateway_ports = false;
}

abbrev socks5 : Socks5
socks5 = record {
  read_command = λ c. (ok (tcp_connect, codes "h:1"), c);
  reply_success = λ c. (ok tt, c);
}

abbrev meeting : Meeting
meeting = record {
  machine = record { bind = λ addr. ok tt; connect = λ target. ok tt };
  opened = ok (record { incoming = []; outgoing = []; room = 100 });
  incoming = [];
  accepted = [];
  socks5 = socks5;
}

abbrev dialler : Dialler
dialler = record {
  forms = Forms.sample;
  accepts = λ addr. ok tt;
  namespace_new = λ code. ok tt;
  chains = chain_codec;
  results = result_codec;
  requests = Tunnels.sample;
  jump_stream = λ peer. err (codes "not needed");
  meet = λ peer. meeting;
}

abbrev setup : Setup
setup = record {
  swarm = record {
    now = 0;
    arrivals =
        (10, identify_sent (1 ∷ []))
        ∷ (20, identify_received (1 ∷ []))
        ∷ (30, connection_established (1 ∷ []))
        ∷ (40, connection_established friend)
        ∷ [];
    dialed = [];
  };
  asked = [];
}

abbrev reached : Setup
reached = record {
  swarm = record { now = 40; arrivals = []; dialed = relay ∷ circuit ∷ [] };
  asked = [];
}

abbrev run : Running
run = run_dial_mode Tunnels.sample meeting netcat_mode

dialed : run_dial dialler opt setup ≡ (running friend run, reached)
unfolding run_dial resolve_target relay_base_from_circuit_address validate_relay_address
    connect_and_identify wait_for_peer_connection wait_loop parse_dial_mode
dialed = refl
