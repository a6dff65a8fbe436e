-- ===== src/Target.antt =====
-- src/types.rs, `DialTarget` and `ForwardSpec` with their `FromStr` and `Display`.
pub mod Dial
pub mod Forward
mod Tests
use sape.Prelude.{
  ℕ, zero, suc, ◌+◌, ◌-◌, ◌*◌, ◌/◌, ◌%◌, ◌≤◌, ◌<◌, ◌≡◌, refl, sym, ap, ◌∙◌, ◌≢◌, ◌↔◌, ◌⊎◌, inl, inr,
  Bool, true, false, not, ◌&&◌, ◌||◌, Option, none, some, List, [], ◌∷◌, ◌++◌, map, append-nil,
  append_assoc, arith, ltb, leb, ◌==◌, if◌then◌else◌, ==_iff, Bool-cases, Option-cases, length,
  get_elem?, take, drop, length-append, take-append, drop-append, All, All-append,
}
use sape.Prelude.Result.{Result, ok, err, ok_or, map_err, ◌>>=◌}
use sape.Text.{Text, codes, strip_prefix, is_empty, has_char}
use sape.Text.Split.{split_once}
use sape.Text.Number.{parse_u16, to_string}
use sape.Pairing.{is_pairing_code}
use sape.Address.{PeerId, Multiaddr}
use sape.Libp2p.{TextForms}

pub data DialTargetError : Type 0 where
  invalid_peer_id invalid_multiaddr : Text → DialTargetError

pub data DialTarget : Type 0 where
  mdns : PeerId → DialTarget
  relay_circuit : Multiaddr → DialTarget
  pairing_code : Text → DialTarget

module _ (l : TextForms) where
  -- The last two tests of `from_str`, with what `strip_prefix` gave.
  abbrev target_of : Text → Option Text → Result DialTargetError DialTarget
  target_of s (some peer_str) = do
    peer_id ← map_err invalid_peer_id (l.peer_id_from_str peer_str)
    ok (mdns peer_id)
  target_of s none = do
    addr ← map_err invalid_multiaddr (l.multiaddr_from_str s)
    ok (relay_circuit addr)

  unfoldable pub dial_target_from_str : Text → Result DialTargetError DialTarget
  dial_target_from_str s =
      if is_pairing_code s
      then ok (pairing_code s)
      else target_of s (strip_prefix (codes "/mdns/") s)

pub data ForwardSpecError : Type 0 where
  missing_separator invalid_port invalid_target : Text → ForwardSpecError

-- `bind_port` is a u16.
pub record ForwardSpec : Type 0 where
  pub bind_port : ℕ
  pub target : Text

unfoldable pub forward_spec_from_str : Text → Result ForwardSpecError ForwardSpec
forward_spec_from_str s = do
  (bind, target) ← ok_or (split_once b':' s) (missing_separator s)
  bind_port ← ok_or (parse_u16 bind) (invalid_port bind)
  if is_empty target || not (has_char b':' target)
      then err (invalid_target target)
      else ok (record { bind_port = bind_port; target = target })

-- `Display`: the format is `{bind_port}:{target}`.
unfoldable pub forward_spec_to_string : ForwardSpec → Text
forward_spec_to_string spec = to_string spec.bind_port ++ b':' ∷ spec.target
