-- ===== src/Jump.antt =====
-- src/jump.rs: the hops of a jump chain, and the answer that travels back.
pub mod Sample
use sape.Prelude.{
  ℕ, zero, suc, ◌+◌, ◌-◌, ◌*◌, ◌/◌, ◌%◌, ◌≤◌, ◌<◌, ◌≡◌, refl, sym, ap, ◌∙◌, ◌≢◌, ◌↔◌, ◌⊎◌, inl, inr,
  Bool, true, false, not, ◌&&◌, ◌||◌, Option, none, some, List, [], ◌∷◌, ◌++◌, map, append-nil,
  append_assoc, arith, ltb, leb, ◌==◌, if◌then◌else◌, ==_iff, Bool-cases, Option-cases, length,
  get_elem?, take, drop, length-append, take-append, drop-append, All, All-append,
}
use sape.Text.{Text}
use sape.Wire.{Io, Codec, read_frame, write_frame}

pub record JumpChain : Type 0 where
  pub hops : List Text

pub data JumpResult : Type 0 where
  jump_ok : JumpResult
  jump_error : Text → JumpResult

abbrev pub read_jump_chain : Codec JumpChain → Io JumpChain
read_jump_chain codec = read_frame codec

abbrev pub write_jump_chain : Codec JumpChain → JumpChain → Io (Unit {0})
write_jump_chain codec = write_frame codec

abbrev pub read_jump_result : Codec JumpResult → Io JumpResult
read_jump_result codec = read_frame codec

abbrev pub write_jump_result : Codec JumpResult → JumpResult → Io (Unit {0})
write_jump_result codec = write_frame codec
