-- ===== src/Cli.antt =====
-- src/cli.rs: the commands, with the options that clap or the interactive mode fills in.
use sape.Prelude.{ℕ, Bool, Option, List}
use sape.Text.{Text}
use sape.Address.{PeerId, Multiaddr}
use sape.Target.{DialTarget, ForwardSpec}

-- `secret_key_seed` is a u8; ports are u16.
pub record RelayOpt : Type 0 where
  pub use_ipv6 : Bool
  pub identity_file : Option Text
  pub secret_key_seed : Option ℕ
  pub port : ℕ

pub record ListenOpt : Type 0 where
  pub relay_address : Option Multiaddr
  pub code : Option Text
  pub identity_file : Option Text
  pub secret_key_seed : Option ℕ
  pub allowed_peers : List PeerId

pub record DialOpt : Type 0 where
  pub target : DialTarget
  pub relay_address : Option Multiaddr
  pub identity_file : Option Text
  pub secret_key_seed : Option ℕ
  pub jump : List Multiaddr
  pub local_forward : Option ForwardSpec
  pub remote_forward : Option ForwardSpec
  pub socks : Option ℕ
  pub gateway_ports : Bool

pub data Command : Type 0 where
  relay_command : RelayOpt → Command
  listen_command : ListenOpt → Command
  dial_command : DialOpt → Command
