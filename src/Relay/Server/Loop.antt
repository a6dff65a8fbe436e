-- ===== src/Relay/Server/Loop.antt =====
-- What the relay's loop does with all that reaches it.
use sape.Prelude.{◌≡◌, refl, ◌∙◌, List, [], ◌∷◌, ◌++◌, map, append-nil, append_assoc}
use sape.Prelude.Result.{Result, ok, err}
use sape.Text.{Text}
use sape.Address.{PeerId, Multiaddr}
use sape.Relay.Server.{
  Input, ctrl_c, stream_end, another_event, identify_received, new_listen_addr, dial_command,
  Server, relay_address, dial_answered, serve,
}

-- The inputs before the signal to end and the end of the swarm's stream.
abbrev pub heard : List Input → List Input
heard [] = []
heard (ctrl_c ∷ inputs) = []
heard (stream_end ∷ inputs) = []
heard (input ∷ inputs) = input ∷ heard inputs

abbrev pub observed : List Input → List Multiaddr
observed [] = []
observed (identify_received addr ∷ inputs) = addr ∷ observed inputs
observed (input ∷ inputs) = observed inputs

abbrev pub announced : List Input → List Multiaddr
announced [] = []
announced (new_listen_addr addr ∷ inputs) = addr ∷ announced inputs
announced (input ∷ inputs) = announced inputs

abbrev pub if_taken : Result Text (Unit {0}) → Multiaddr → List Multiaddr → List Multiaddr
if_taken (ok u) addr addrs = addr ∷ addrs
if_taken (err e) addr addrs = addrs

module _ (relay : PeerId) (accepts : Multiaddr → Result Text (Unit {0})) where
  abbrev pub taken : List Input → List Multiaddr
  taken [] = []
  taken (dial_command addr ∷ inputs) = if_taken (accepts addr) addr (taken inputs)
  taken (input ∷ inputs) = taken inputs

  -- The server after all of this.
  abbrev pub collected : List Input → Server → Server
  collected inputs s = record {
    external = s.external ++ observed inputs;
    dialed = s.dialed ++ taken inputs;
    shown = s.shown ++ map (relay_address relay) (announced inputs);
  }

  dialed-collected :
      (r : Result Text (Unit {0})) (addr : Multiaddr) (inputs : List Input) (s : Server)
      → collected inputs (dial_answered relay accepts addr r s) ≡ record {
        external = s.external ++ observed inputs;
        dialed = s.dialed ++ if_taken r addr (taken inputs);
        shown = s.shown ++ map (relay_address relay) (announced inputs);
      }
  dialed-collected (ok u) addr inputs s = rw append_assoc
  dialed-collected (err e) addr inputs s = refl

  -- Whatever mix of events and commands reaches the relay before it ends, each observed address is an
  -- external one, each command's address that libp2p takes is dialed, and each new listening address
  -- is shown as a relay address, all in the order in which they came; nothing that comes after the end
  -- has an effect.
  pub serve-collected :
      (inputs : List Input) (s : Server)
      → (serve relay accepts inputs s).1 ≡ collected (heard inputs) s
  unfolding serve
  serve-collected [] s = rw (append-nil, append-nil, append-nil)
  serve-collected (ctrl_c ∷ inputs) s = rw (append-nil, append-nil, append-nil)
  serve-collected (stream_end ∷ inputs) s = rw (append-nil, append-nil, append-nil)
  serve-collected (another_event ∷ inputs) s = serve-collected inputs s
  serve-collected (identify_received addr ∷ inputs) s =
      serve-collected inputs (record s { external = s.external ++ addr ∷ [] }) ∙ rw append_assoc
  serve-collected (new_listen_addr addr ∷ inputs) s =
      serve-collected inputs (record s { shown = s.shown ++ relay_address relay addr ∷ [] })
      ∙ rw append_assoc
  serve-collected (dial_command addr ∷ inputs) s =
      serve-collected inputs (dial_answered relay accepts addr (accepts addr) s)
      ∙ dialed-collected (accepts addr) addr (heard inputs) s
