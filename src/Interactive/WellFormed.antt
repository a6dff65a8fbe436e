-- ===== src/Interactive/WellFormed.antt =====
-- What the interactive mode's commands have to satisfy.
use sape.Prelude.{ℕ, ◌≤◌, ◌≡◌, ◌≢◌, inl, inr, true, false, Option, none, some, [], ◌∷◌, Bool-cases}
use sape.Prelude.Result.{Result, ok, err}
use sape.Text.{Text, is_empty, trim}
use sape.Address.{Multiaddr}
use sape.Target.{DialTarget, mdns, relay_circuit, pairing_code, ForwardSpec, forward_spec_from_str}
use sape.Target.Forward.{forward_spec_from_str_iff}
use sape.Cli.{DialOpt, Command, relay_command, listen_command, dial_command}
use sape.Dial.Mode.{AtMostOne}
use sape.Terminal.{
  valid, operation_canceled, operation_interrupted, another_error, Stop, prompt_error, panicked,
}
use sape.Terminal.Ensures.{Holds}
use sape.Interactive.{nonempty, code_of, Outcome, command, exit_0, panics, fails, outcome_of}

-- A code is asked for with the relay at which it is looked up.
abbrev pub HasRelay : DialTarget → Option Multiaddr → Type 0
HasRelay (pairing_code code) relay_address = (code ≢ []) × (relay_address ≢ none)
HasRelay (relay_circuit addr) relay_address = Unit
HasRelay (mdns peer_id) relay_address = Unit

abbrev pub IsForward : Option ForwardSpec → Type 0
IsForward none = Unit
IsForward (some spec) = (s : Text) × (forward_spec_from_str s ≡ ok spec) × (spec.bind_port ≤ 65535)

abbrev pub IsPort : Option ℕ → Type 0
IsPort none = Unit
IsPort (some port) = port ≤ 65535

-- A dialler's options with at most one tunnel, a code only with a relay and with a text that is not
-- empty, no jump hops, forwards that the parser has read, ports that are u16, and a gateway option
-- only beside a remote forward.
pub record IsDialable (opt : DialOpt) : Type 0 where
  pub one_mode : AtMostOne opt
  pub has_relay : HasRelay opt.target opt.relay_address
  pub no_jump : opt.jump ≡ []
  pub local_read : IsForward opt.local_forward
  pub remote_read : IsForward opt.remote_forward
  pub socks_fits : IsPort opt.socks
  pub gateway_is_reverse : opt.gateway_ports ≡ true → opt.remote_forward ≢ none

abbrev pub IsWellFormed : Command → Type 0
IsWellFormed (relay_command opt) = opt.port ≤ 65535
IsWellFormed (listen_command opt) = opt.code ≢ some []
IsWellFormed (dial_command opt) = IsDialable opt

-- A command that is well formed, or the end of the program by the user's wish or by the terminal's
-- error, and no panic.
abbrev pub IsSound : Outcome → Type 0
IsSound (command c) = IsWellFormed c
IsSound exit_0 = Unit
IsSound panics = ⊥
IsSound (fails e) = Unit

pub IsSound-of : (r : Result Stop Command) → Holds IsWellFormed r → IsSound (outcome_of r)
IsSound-of (ok c) h = h
IsSound-of (err (prompt_error operation_canceled)) h = tt
IsSound-of (err (prompt_error operation_interrupted)) h = tt
IsSound-of (err (prompt_error (another_error e))) h = tt
IsSound-of (err panicked) h = h

pub code_of-ne-empty : (raw : Text) → code_of raw ≢ some []
code_of-ne-empty raw = elim (Bool-cases (is_empty (trim raw))) [
  | inl empty ↦ rw empty (λ e. cc)
  | inr there ↦ rw there (λ e. nonempty_text (trim raw) there e)
]
  where
    nonempty_text : (s : Text) → is_empty s ≡ false → some s ≢ some []
    nonempty_text [] h e = cc
    nonempty_text (c ∷ s) h e = cc

pub nonempty-ne-nil : (s : Text) → nonempty s ≡ valid → trim s ≢ []
nonempty-ne-nil s h e = cc (rw e at h)

pub forward_spec_from_str-IsForward :
    (s : Text) (spec : ForwardSpec) → forward_spec_from_str s ≡ ok spec → IsForward (some spec)
forward_spec_from_str-IsForward s spec h = (s, h, ((forward_spec_from_str_iff s spec).0 h).1)
