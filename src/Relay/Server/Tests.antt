-- ===== src/Relay/Server/Tests.antt =====
-- A relay on the standard port, and its loop on a few inputs.
use sape.Prelude.{false, none, List, [], ◌∷◌}
use sape.Address.{PeerId, tcp, p2p}
use sape.Cli.{RelayOpt}
use sape.Relay.Server.{
  Input, ctrl_c, another_event, identify_received, new_listen_addr, dial_command, Server,
}

abbrev opt : RelayOpt
opt = record { use_ipv6 = false; identity_file = none; secret_key_seed = none; port = 4001 }

abbrev relay : PeerId
relay = 1 ∷ []

abbrev inputs : List Input
inputs =
    new_listen_addr (tcp 4001 ∷ [])
    ∷ dial_command (p2p relay ∷ [])
    ∷ identify_received (tcp 5 ∷ [])
    ∷ another_event
    ∷ ctrl_c
    ∷ dial_command (p2p relay ∷ [])
    ∷ []

abbrev empty : Server
empty = record { external = []; dialed = []; shown = [] }
