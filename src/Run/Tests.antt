-- ===== src/Run/Tests.antt =====
-- Processes with and without arguments.
use sape.Prelude.{◌≡◌, refl, ◌↔◌, inl, false, Option, none, some, List, [], ◌∷◌}
use mathlib.Core.Path.{subst}
use sape.Dial.Mode.{AtMostOne}
use sape.Prelude.Result.{Result, ok}
use sape.Text.{Text, codes, trim}
use sape.Text.Number.{parse_unsigned}
use sape.Libp2p
use sape.Target.{mdns}
use sape.Protocol.{check_namespace, tunnel_protocol, jump_protocol, contains_slash}
use sape.Cli.{DialOpt, ListenOpt, Command, dial_command, listen_command}
use sape.Terminal
use sape.Interactive.{run_interactive, run_interactive_inner, run_dial}
use sape.Run.{Process, refused, dial, run}
use sape.Run.Launched.{IsClap, IsLaunched, run-IsLaunched, run-dial-listen}

abbrev started : Option Text → Option Command → List Text → Process (List Text)
started variable arguments lines = record {
  variable = variable;
  arguments = ok arguments;
  forms = Libp2p.Sample.sample;
  prompts = Terminal.Sample.sample;
  terminal = lines;
}

abbrev dial_opt : DialOpt
dial_opt = record {
  target = mdns (codes "abc");
  relay_address = none;
  identity_file = none;
  secret_key_seed = none;
  jump = [];
  local_forward = none;
  remote_forward = none;
  socks = some 1081;
  gateway_ports = false;
}

abbrev listen_opt : ListenOpt
listen_opt = record {
  relay_address = none;
  code = none;
  identity_file = none;
  secret_key_seed = none;
  allowed_peers = [];
}

abbrev dialler : Process (List Text)
dialler = started none (some (dial_command dial_opt)) []

abbrev listener : Process (List Text)
listener = started (some (codes "sape")) (some (listen_command listen_opt)) []

-- The namespace is checked before the arguments are read.
slashed : run (started (some (codes "a/b")) none []) ≡ refused contains_slash
unfolding run check_namespace
slashed = refl

-- Without a command, the user is asked.
asked :
    run (started none none ((2 ∷ []) ∷ (1 ∷ []) ∷ codes "abc" ∷ (3 ∷ []) ∷ codes "1081" ∷ []))
    ≡ dial dial_opt (codes "/sape/tunnel/1.0.0") (codes "/sape/jump/1.0.0") (codes "sape")
unfolding run check_namespace tunnel_protocol jump_protocol run_interactive run_interactive_inner
    run_dial Terminal.Sample.sample trim parse_unsigned
asked = refl

opt_of :
    {a b : DialOpt}
    → ◌≡◌ {A = Result Text (Option Command)}
        (ok (some (dial_command a)))
        (ok (some (dial_command b)))
    → a ≡ b
opt_of h = cc

dialler_keeps : IsClap dialler.arguments
dialler_keeps opt e = subst AtMostOne (opt_of e) (inl refl, inl refl)

listener_keeps : IsClap listener.arguments
listener_keeps opt e = cc

run-IsLaunched_example :
    IsLaunched dialler
      (codes "sape")
      (dial dial_opt (codes "/sape/tunnel/1.0.0") (codes "/sape/jump/1.0.0") (codes "sape"))
unfolding run check_namespace tunnel_protocol jump_protocol
run-IsLaunched_example = run-IsLaunched dialler Terminal.Sample.sample-IsInquire dialler_keeps

run-dial-listen_example :
    (tunnel_protocol (codes "sape") ≡ tunnel_protocol (codes "sape"))
    ↔ (codes "sape" ≡ codes "sape")
unfolding run check_namespace
run-dial-listen_example =
    run-dial-listen dialler listener Terminal.Sample.sample-IsInquire
      Terminal.Sample.sample-IsInquire dialler_keeps listener_keeps dial_opt listen_opt
      (tunnel_protocol (codes "sape")) (jump_protocol (codes "sape")) (codes "sape")
      (tunnel_protocol (codes "sape")) (codes "sape") refl refl
