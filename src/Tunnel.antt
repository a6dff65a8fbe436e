-- ===== src/Tunnel.antt =====
-- src/tunnel.rs: what a dialler asks for on a new tunnel stream.
pub mod Sample
use sape.Prelude.{
  ℕ, zero, suc, ◌+◌, ◌-◌, ◌*◌, ◌/◌, ◌%◌, ◌≤◌, ◌<◌, ◌≡◌, refl, sym, ap, ◌∙◌, ◌≢◌, ◌↔◌, ◌⊎◌, inl, inr,
  Bool, true, false, not, ◌&&◌, ◌||◌, Option, none, some, List, [], ◌∷◌, ◌++◌, map, append-nil,
  append_assoc, arith, ltb, leb, ◌==◌, if◌then◌else◌, ==_iff, Bool-cases, Option-cases, length,
  get_elem?, take, drop, length-append, take-append, drop-append, All, All-append,
}
use sape.Text.{Text}
use sape.Wire.{Io, Codec, read_frame, write_frame}

pub data TunnelRequest : Type 0 where
  netcat : TunnelRequest
  local_forward : (target : Text) → TunnelRequest
  reverse_forward : (bind_port : ℕ) (target : Text) (gateway_ports : Bool) → TunnelRequest

abbrev pub reverse_ok : ℕ
reverse_ok = 0

abbrev pub reverse_failed : ℕ
reverse_failed = 1

abbrev pub read_tunnel_request : Codec TunnelRequest → Io TunnelRequest
read_tunnel_request codec = read_frame codec

abbrev pub write_tunnel_request : Codec TunnelRequest → TunnelRequest → Io (Unit {0})
write_tunnel_request codec = write_frame codec
