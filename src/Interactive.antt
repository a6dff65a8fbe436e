-- ===== src/Interactive.antt =====
-- src/interactive.rs: the questions of the interactive mode, and the command made of the answers.
pub mod Validators
pub mod WellFormed
pub mod Sound
mod Tests
use sape.Prelude.{
  ℕ, zero, suc, ◌+◌, ◌-◌, ◌*◌, ◌/◌, ◌%◌, ◌≤◌, ◌<◌, ◌≡◌, refl, sym, ap, ◌∙◌, ◌≢◌, ◌↔◌, ◌⊎◌, inl, inr,
  Bool, true, false, not, ◌&&◌, ◌||◌, Option, none, some, List, [], ◌∷◌, ◌++◌, map, append-nil,
  append_assoc, arith, ltb, leb, ◌==◌, if◌then◌else◌, ==_iff, Bool-cases, Option-cases, length,
  get_elem?, take, drop, length-append, take-append, drop-append, All, All-append,
}
use sape.Prelude.Result.{Result, ok, err}
use sape.Prelude.Exec.{Exec, pure, raise, ◌>>=◌, ◌>>◌}
use sape.Text.{Text, codes, is_empty, trim}
use sape.Text.Split.{split}
use sape.Text.Number.{parse_u16}
use sape.Address.{PeerId, Multiaddr}
use sape.Libp2p.{TextForms}
use sape.Target.{DialTarget, mdns, relay_circuit, pairing_code, ForwardSpec, forward_spec_from_str}
use sape.Cli.{RelayOpt, ListenOpt, DialOpt, Command, relay_command, listen_command, dial_command}
use sape.Terminal
use sape.Terminal.{
  Validation, valid, invalid, InquireError, operation_canceled, operation_interrupted,
  another_error, Prompts, Stop, prompt_error, panicked, Dialogue, expect, expect_some, ask, choose,
}

-- An option of a selection, by its place among those offered.
pub data Mode : Type 0 where
  relay_mode listen_mode dial_mode : Mode

abbrev pub mode_at : ℕ → Mode
mode_at zero = relay_mode
mode_at (suc zero) = listen_mode
mode_at (suc (suc i)) = dial_mode

pub data ListenConn : Type 0 where
  via_relay lan_only : ListenConn

abbrev pub listen_conn_at : ℕ → ListenConn
listen_conn_at zero = via_relay
listen_conn_at (suc i) = lan_only

pub data DialConn : Type 0 where
  by_circuit by_mdns by_pairing : DialConn

abbrev pub dial_conn_at : ℕ → DialConn
dial_conn_at zero = by_circuit
dial_conn_at (suc zero) = by_mdns
dial_conn_at (suc (suc i)) = by_pairing

pub data TunnelMode : Type 0 where
  netcat_tunnel local_tunnel reverse_tunnel socks_tunnel : TunnelMode

abbrev pub tunnel_mode_at : ℕ → TunnelMode
tunnel_mode_at zero = netcat_tunnel
tunnel_mode_at (suc zero) = local_tunnel
tunnel_mode_at (suc (suc zero)) = reverse_tunnel
tunnel_mode_at (suc (suc (suc i))) = socks_tunnel

abbrev pub parsed : {E A : Type 0} → Result E A → Text → Validation
parsed (ok a) message = valid
parsed (err e) message = invalid message

abbrev pub counted : Option ℕ → Text → Validation
counted (some n) message = valid
counted none message = invalid message

-- The validator of a port: nothing, or what a u16 reads.
abbrev pub valid_port : Text → Validation
valid_port s =
    let v = trim s in if is_empty v then valid else counted (parse_u16 v) (codes "invalid port")

-- The validator of a text that has to be there and to be read by the parser.
abbrev pub required : {E A : Type 0} → (Text → Result E A) → Text → Text → Text → Validation
required parse when_empty when_bad s =
    let v = trim s in if is_empty v then invalid when_empty else parsed (parse v) when_bad

abbrev pub any_text : Text → Validation
any_text s = valid

abbrev pub nonempty : Text → Validation
nonempty s = if is_empty (trim s) then invalid (codes "pairing code cannot be empty") else valid

-- `.map(str::trim).filter(|p| !p.is_empty())`
abbrev pub trimmed_parts : List Text → List Text
trimmed_parts [] = []
trimmed_parts (p ∷ ps) =
    let v = trim p in let rest = trimmed_parts ps in if is_empty v then rest else v ∷ rest

abbrev pub peer_texts : Text → List Text
peer_texts v = trimmed_parts (split b',' v)

-- The port of an answer that passed its validator.
abbrev pub port_of : {T : Type 0} → ℕ → Text → Dialogue T ℕ
port_of default raw =
    if is_empty (trim raw) then pure default else expect_some (parse_u16 (trim raw))

abbrev pub code_of : Text → Option Text
code_of raw = if is_empty (trim raw) then none else some (trim raw)

-- How the process goes on.
pub data Outcome : Type 0 where
  command : Command → Outcome
  exit_0 panics : Outcome
  fails : Text → Outcome

abbrev pub outcome_of : Result Stop Command → Outcome
outcome_of (ok c) = command c
outcome_of (err (prompt_error operation_canceled)) = exit_0
outcome_of (err (prompt_error operation_interrupted)) = exit_0
outcome_of (err (prompt_error (another_error e))) = fails e
outcome_of (err panicked) = panics

module _ (forms : TextForms) where
  abbrev pub all_peer_ids : List Text → Validation
  all_peer_ids [] = valid
  all_peer_ids (p ∷ ps) =
      let rest = all_peer_ids ps in
      elim (forms.peer_id_from_str p) [
        | ok id ↦ rest
        | err e ↦ invalid (codes "invalid peer id list")
      ]

  abbrev pub valid_peers : Text → Validation
  valid_peers s = let v = trim s in if is_empty v then valid else all_peer_ids (peer_texts v)

  abbrev pub expect_peers : {T : Type 0} → List Text → Dialogue T (List PeerId)
  expect_peers [] = pure []
  expect_peers (p ∷ ps) = do
    id ← expect (forms.peer_id_from_str p)
    ids ← expect_peers ps
    pure (id ∷ ids)

  module _ {T : Type 0} (prompts : Prompts T) where
    abbrev pub ask_address : Text → Text → Text → Dialogue T Multiaddr
    ask_address label when_empty when_bad = do
      raw ← ask prompts label (required forms.multiaddr_from_str when_empty when_bad)
      expect (forms.multiaddr_from_str (trim raw))

    abbrev pub ask_relay_address : Dialogue T Multiaddr
    ask_relay_address =
        ask_address (codes "Relay address") (codes "relay address cannot be empty")
          (codes "invalid relay multiaddr")

    abbrev pub ask_forward : Dialogue T Text
    ask_forward = ask prompts (codes "Forward spec") (
        required forward_spec_from_str (codes "forward spec cannot be empty")
          (codes "invalid forward spec"))

    unfoldable pub run_relay : Dialogue T Command
    run_relay = do
      port_raw ← ask prompts (codes "Port") valid_port
      use_ipv6 ← Terminal.confirm prompts (codes "Use IPv6?") false
      port ← port_of 4001 port_raw
      pure (
          relay_command (record {
            use_ipv6 = use_ipv6;
            identity_file = none;
            secret_key_seed = none;
            port = port;
          }))

    abbrev pub listen_address : ListenConn → Dialogue T (Option Multiaddr)
    listen_address via_relay = do addr ← ask_relay_address; pure (some addr)
    listen_address lan_only = pure none

    unfoldable pub run_listen : Dialogue T Command
    run_listen = do
      conn ← choose prompts (codes "Connection type?") 2
      relay_address ← listen_address (listen_conn_at conn)
      code_raw ← ask prompts (codes "Pairing code? (optional)") any_text
      allowed_peers_raw ← ask prompts (codes "Allowed peers? (optional)") valid_peers
      allowed_peers ← expect_peers (peer_texts (trim allowed_peers_raw))
      pure (
          listen_command (record {
            relay_address = relay_address;
            code = code_of code_raw;
            identity_file = none;
            secret_key_seed = none;
            allowed_peers = allowed_peers;
          }))

    -- The target, and the relay's address where the target is a code.
    abbrev pub ask_target : DialConn → Dialogue T (DialTarget × Option Multiaddr)
    ask_target by_circuit = do
      addr ←
          ask_address (codes "Target relay circuit address")
            (codes "target address cannot be empty") (codes "invalid circuit multiaddr")
      pure (relay_circuit addr, none)
    ask_target by_mdns = do
      peer_raw ← ask prompts (codes "Peer ID") (
          required forms.peer_id_from_str (codes "peer id cannot be empty")
            (codes "invalid peer id"))
      peer_id ← expect (forms.peer_id_from_str (trim peer_raw))
      pure (mdns peer_id, none)
    ask_target by_pairing = do
      code_raw ← ask prompts (codes "Pairing code") nonempty
      relay ← ask_relay_address
      pure (pairing_code (trim code_raw), some relay)

    -- The four options of the tunnel, for a target.
    abbrev pub ask_tunnel : TunnelMode → DialTarget → Option Multiaddr → Dialogue T DialOpt
    ask_tunnel mode target relay_address =
        let opt : DialOpt = record {
          target = target;
          relay_address = relay_address;
          identity_file = none;
          secret_key_seed = none;
          jump = [];
          local_forward = none;
          remote_forward = none;
          socks = none;
          gateway_ports = false;
        } in
        elim mode [
          | netcat_tunnel ↦ pure opt
          | local_tunnel ↦ (do
            forward_raw ← ask_forward
            forward ← expect (forward_spec_from_str (trim forward_raw))
            pure (record opt { local_forward = some forward }))
          | reverse_tunnel ↦ (do
            forward_raw ← ask_forward
            gateway_ports ← Terminal.confirm prompts (codes "Enable gateway ports?") false
            forward ← expect (forward_spec_from_str (trim forward_raw))
            pure (record opt { remote_forward = some forward; gateway_ports = gateway_ports }))
          | socks_tunnel ↦ (do
            port_raw ← ask prompts (codes "SOCKS5 port") valid_port
            port ← port_of 1080 port_raw
            pure (record opt { socks = some port }))
        ]

    unfoldable pub run_dial : Dialogue T Command
    run_dial = do
      conn ← choose prompts (codes "Connection type?") 3
      (target, relay_address) ← ask_target (dial_conn_at conn)
      tunnel ← choose prompts (codes "Tunnel mode?") 4
      opt ← ask_tunnel (tunnel_mode_at tunnel) target relay_address
      pure (dial_command opt)

    abbrev pub run_mode : Mode → Dialogue T Command
    run_mode relay_mode = run_relay
    run_mode listen_mode = run_listen
    run_mode dial_mode = run_dial

    unfoldable pub run_interactive_inner : Dialogue T Command
    run_interactive_inner = do
      mode ← choose prompts (codes "What do you want to do?") 3
      run_mode (mode_at mode)

    unfoldable pub run_interactive : T → Outcome
    run_interactive t = outcome_of (run_interactive_inner t).0
