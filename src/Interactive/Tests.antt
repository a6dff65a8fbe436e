-- ===== src/Interactive/Tests.antt =====
-- Conversations with a user who types these lines.
use sape.Prelude.{◌≡◌, refl, false, none, some, List, [], ◌∷◌}
use sape.Text.{Text, codes, trim}
use sape.Text.Number.{parse_unsigned}
use sape.Libp2p
use sape.Target.{mdns}
use sape.Cli.{Command, dial_command}
use sape.Terminal
use sape.Interactive.{run_interactive, command, exit_0, run_interactive_inner, run_dial}
use sape.Interactive.WellFormed.{IsSound}
use sape.Interactive.Sound.{run_interactive-IsSound}

abbrev socks_lines : List Text
socks_lines =
    (2 ∷ [])
    ∷ (1 ∷ [])
    ∷ codes " "
    ∷ codes " abc "
    ∷ (9 ∷ [])
    ∷ (3 ∷ [])
    ∷ codes "99999"
    ∷ codes "1081"
    ∷ []

abbrev socks_command : Command
socks_command = dial_command (record {
  target = mdns (codes "abc");
  relay_address = none;
  identity_file = none;
  secret_key_seed = none;
  jump = [];
  local_forward = none;
  remote_forward = none;
  socks = some 1081;
  gateway_ports = false;
})

-- The blank peer id, the option 9 and the port 99999 are asked for again.
socks_chosen :
    run_interactive Libp2p.Sample.sample Terminal.Sample.sample socks_lines ≡ command socks_command
unfolding run_interactive run_interactive_inner run_dial Terminal.Sample.sample trim parse_unsigned
socks_chosen = refl

canceled : run_interactive Libp2p.Sample.sample Terminal.Sample.sample ((2 ∷ []) ∷ []) ≡ exit_0
unfolding run_interactive run_interactive_inner run_dial Terminal.Sample.sample
canceled = refl

run_interactive-IsSound_example :
    IsSound (run_interactive Libp2p.Sample.sample Terminal.Sample.sample socks_lines)
run_interactive-IsSound_example =
    run_interactive-IsSound Libp2p.Sample.sample Terminal.Sample.sample
      Terminal.Sample.sample-IsInquire socks_lines
