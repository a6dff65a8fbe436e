-- ===== src/Listen/Setup/Sample.antt =====
-- A listener at a relay, for any peer id and code.
use sape.Prelude.{◌≡◌, refl, none, some, [], ◌∷◌, ◌++◌}
use sape.Prelude.Result.{ok}
use sape.Text.{Text, codes}
use sape.Address.{
  PeerId, ip4, tcp, udp, quic_v1, p2p, p2p_circuit, Multiaddr, validate_relay_address,
  peer_id_from_multiaddr,
}
use sape.Libp2p.Sample.{sample}
use sape.Cli.{ListenOpt}
use sape.Swarm.{identify_sent, identify_received, connect_and_identify, wait_loop}
use sape.Listen.Setup.{
  pairing_code_line, relay_dial_line, lan_dial_line, Listening, Behaviour, set_up, reserve,
  start_listeners,
}

abbrev pub behaviour : Behaviour
behaviour = record {
  forms = sample;
  accepts = λ addr. ok tt;
  listen_on = λ addr. ok tt;
  namespace_new = λ code. ok tt;
  register = λ code point. ok tt;
}

abbrev pub relay : Multiaddr
relay = tcp 4001 ∷ p2p (1 ∷ []) ∷ []

abbrev pub opt : ListenOpt
opt = record {
  relay_address = some relay;
  code = none;
  identity_file = none;
  secret_key_seed = none;
  allowed_peers = [];
}

abbrev pub start : Listening
start = record {
  swarm = record {
    now = 0;
    arrivals = (10, identify_sent (1 ∷ [])) ∷ (20, identify_received (1 ∷ [])) ∷ [];
    dialed = [];
  };
  listens = [];
  external = [];
  registered = [];
  shown = [];
}

abbrev pub circuit : PeerId → Multiaddr
circuit local = relay ++ p2p_circuit ∷ p2p local ∷ []

abbrev pub ready : PeerId → Text → Listening
ready local code = record {
  swarm = record { now = 20; arrivals = []; dialed = relay ∷ [] };
  listens =
      (ip4 (0 ∷ 0 ∷ 0 ∷ 0 ∷ []) ∷ tcp 0 ∷ [])
      ∷ (ip4 (0 ∷ 0 ∷ 0 ∷ 0 ∷ []) ∷ udp 0 ∷ quic_v1 ∷ [])
      ∷ (relay ++ p2p_circuit ∷ [])
      ∷ [];
  external = circuit local ∷ [];
  registered = (code, 1 ∷ []) ∷ [];
  shown =
      pairing_code_line (code)
      ∷ relay_dial_line (sample.multiaddr_to_string (circuit local))
      ∷ lan_dial_line (codes "/mdns/" ++ local)
      ∷ [];
}

pub set_up-ready :
    (local : PeerId) (code : Text)
    → set_up behaviour opt (ok local) code start ≡ (ok tt, ready local code)
unfolding set_up reserve start_listeners validate_relay_address peer_id_from_multiaddr
    connect_and_identify wait_loop
set_up-ready local code = refl
