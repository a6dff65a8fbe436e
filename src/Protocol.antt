-- ===== src/Protocol.antt =====
-- src/protocol.rs, and the check of the namespace in `run` of src/lib.rs.
pub mod Apart
pub mod Purposes
mod Tests
use sape.Prelude.{
  ℕ, zero, suc, ◌+◌, ◌-◌, ◌*◌, ◌/◌, ◌%◌, ◌≤◌, ◌<◌, ◌≡◌, refl, sym, ap, ◌∙◌, ◌≢◌, ◌↔◌, ◌⊎◌, inl, inr,
  Bool, true, false, not, ◌&&◌, ◌||◌, Option, none, some, List, [], ◌∷◌, ◌++◌, map, append-nil,
  append_assoc, arith, ltb, leb, ◌==◌, if◌then◌else◌, ==_iff, Bool-cases, Option-cases, length,
  get_elem?, take, drop, length-append, take-append, drop-append, All, All-append,
}
use sape.Prelude.Result.{Result, ok, err, ◌>>=◌, ◌>>◌}
use sape.Text.{Text, codes, is_empty, has_char}

pub data NamespaceError : Type 0 where
  empty_namespace contains_slash not_printable_ascii : NamespaceError

-- `!c.is_ascii() || c.is_ascii_control()`
abbrev pub unprintable : ℕ → Bool
unprintable c = leb 128 c || (ltb c 32 || c == 127)

abbrev pub any_unprintable : Text → Bool
any_unprintable [] = false
any_unprintable (c ∷ s) = unprintable c || any_unprintable s

unfoldable pub check_namespace : Text → Result NamespaceError (Unit {0})
check_namespace namespace =
    if is_empty namespace
    then err empty_namespace
    else if has_char b'/' namespace
    then err contains_slash
    else if any_unprintable namespace
    then err not_printable_ascii
    else ok tt

abbrev pub tunnel_tail : Text
tunnel_tail = codes "tunnel/1.0.0"

abbrev pub jump_tail : Text
jump_tail = codes "jump/1.0.0"

unfoldable pub tunnel_protocol : Text → Text
tunnel_protocol namespace = b'/' ∷ (namespace ++ b'/' ∷ tunnel_tail)

unfoldable pub jump_protocol : Text → Text
jump_protocol namespace = b'/' ∷ (namespace ++ b'/' ∷ jump_tail)

abbrev pub identify_tail : Text
identify_tail = codes "0.1.0"

unfoldable pub relay_identify_protocol : Text → Text
relay_identify_protocol namespace = b'/' ∷ (namespace ++ (codes "-relay" ++ b'/' ∷ identify_tail))

unfoldable pub client_identify_protocol : Text → Text
client_identify_protocol namespace = b'/' ∷ (namespace ++ (codes "-client" ++ b'/' ∷ identify_tail))
