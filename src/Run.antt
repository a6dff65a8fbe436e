-- ===== src/Run.antt =====
-- src/lib.rs: from the environment and the command line to the command that is run.
pub mod Launched
mod Tests
use sape.Prelude.{
  ℕ, zero, suc, ◌+◌, ◌-◌, ◌*◌, ◌/◌, ◌%◌, ◌≤◌, ◌<◌, ◌≡◌, refl, sym, ap, ◌∙◌, ◌≢◌, ◌↔◌, ◌⊎◌, inl, inr,
  Bool, true, false, not, ◌&&◌, ◌||◌, Option, none, some, List, [], ◌∷◌, ◌++◌, map, append-nil,
  append_assoc, arith, ltb, leb, ◌==◌, if◌then◌else◌, ==_iff, Bool-cases, Option-cases, length,
  get_elem?, take, drop, length-append, take-append, drop-append, All, All-append,
}
use sape.Prelude.Result.{Result, ok, err}
use sape.Text.{Text, codes}
use sape.Libp2p.{TextForms}
use sape.Protocol.{NamespaceError, check_namespace, tunnel_protocol, jump_protocol}
use sape.Cli.{RelayOpt, ListenOpt, DialOpt, Command, relay_command, listen_command, dial_command}
use sape.Terminal.{Prompts}
use sape.Interactive
use sape.Interactive.{Outcome, run_interactive, command, exit_0, panics, fails}

-- `DEFAULT_NAMESPACE`
abbrev pub default_namespace : Text
default_namespace = codes "sape"

-- What a process starts with: the variable SAPE_NAMESPACE where it is there, what clap makes of the
-- arguments, and the terminal.
pub record Process (T : Type 0) : Type 0 where
  pub variable : Option Text
  pub arguments : Result Text (Option Command)
  pub forms : TextForms
  pub prompts : Prompts T
  pub terminal : T

-- What becomes of it: an exit with code 1 before anything else, an exit by clap, an end of the
-- conversation with the user without a command, or a command with the protocols it is given.
pub data Launch : Type 0 where
  refused : NamespaceError → Launch
  clap_exits : Text → Launch
  ends : Outcome → Launch
  relay : RelayOpt → (tunnel_proto jump_proto namespace : Text) → Launch
  listen : ListenOpt → (tunnel_proto namespace : Text) → Launch
  dial : DialOpt → (tunnel_proto jump_proto namespace : Text) → Launch

abbrev pub namespace_of : Option Text → Text
namespace_of none = default_namespace
namespace_of (some namespace) = namespace

abbrev pub dispatch : (tunnel_proto jump_proto namespace : Text) → Command → Launch
dispatch tunnel_proto jump_proto namespace (relay_command opt) =
    relay opt tunnel_proto jump_proto namespace
dispatch tunnel_proto jump_proto namespace (listen_command opt) = listen opt tunnel_proto namespace
dispatch tunnel_proto jump_proto namespace (dial_command opt) =
    dial opt tunnel_proto jump_proto namespace

abbrev pub after_dialogue : (Command → Launch) → Outcome → Launch
after_dialogue go (command c) = go c
after_dialogue go o = ends o

module _ {T : Type 0} (process : Process T) where
  -- `map_or_else(interactive::run_interactive, Ok)`
  abbrev pub launch_with : (Command → Launch) → Result Text (Option Command) → Launch
  launch_with go (err e) = clap_exits e
  launch_with go (ok (some c)) = go c
  launch_with go (ok none) =
      after_dialogue go (run_interactive process.forms process.prompts process.terminal)

  abbrev pub launch_checked : Text → Result NamespaceError (Unit {0}) → Launch
  launch_checked namespace (err e) = refused e
  launch_checked namespace (ok u) =
      launch_with (dispatch (tunnel_protocol namespace) (jump_protocol namespace) namespace)
        process.arguments

  unfoldable pub run : Launch
  run =
      launch_checked (namespace_of process.variable)
        (check_namespace (namespace_of process.variable))
