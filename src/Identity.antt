-- ===== src/Identity.antt =====
-- src/types.rs, the keypair helpers, over a file system and libp2p's keypairs.
pub mod Persist
mod Tests
use sape.Prelude.{
  ℕ, zero, suc, ◌+◌, ◌-◌, ◌*◌, ◌/◌, ◌%◌, ◌≤◌, ◌<◌, ◌≡◌, refl, sym, ap, ◌∙◌, ◌≢◌, ◌↔◌, ◌⊎◌, inl, inr,
  Bool, true, false, not, ◌&&◌, ◌||◌, Option, none, some, List, [], ◌∷◌, ◌++◌, map, append-nil,
  append_assoc, arith, ltb, leb, ◌==◌, if◌then◌else◌, ==_iff, Bool-cases, Option-cases, length,
  get_elem?, take, drop, length-append, take-append, drop-append, All, All-append,
}
use sape.Prelude.Result.{Result, ok, err, map_err}
use sape.Prelude.Exec.{Exec, pure, raise, lift, ◌>>=◌, ◌>>◌}
use sape.Text.{Text, text_eq}

abbrev pub Bytes : Type 0
Bytes = List ℕ

-- What the helpers use of libp2p's `identity::Keypair`. An error is the text that it prints.
pub record Keypairs : Type 1 where
  pub Keypair : Type 0
  pub ed25519_from_bytes : Bytes → Result Text Keypair
  pub to_protobuf_encoding : Keypair → Result Text Bytes
  pub from_protobuf_encoding : Bytes → Result Text Keypair

abbrev pub FilePath : Type 0
FilePath = Text

pub data IoError : Type 0 where
  invalid_data : Text → IoError
  not_readable not_writable : FilePath → IoError

-- The files with their contents, and the paths that may be read and written.
pub record FileSystem : Type 0 where
  pub content : FilePath → Option Bytes
  pub readable : FilePath → Bool
  pub writable : FilePath → Bool

-- `path.exists()`
abbrev exists : FileSystem → FilePath → Bool
exists fs path = elim (fs.content path) [ none ↦ false | some bytes ↦ true ]

-- `fs::read`
abbrev read_file : FilePath → Exec FileSystem IoError Bytes
read_file path fs =
    if fs.readable path
    then (elim (fs.content path) [ none ↦ err (not_readable path) | some bytes ↦ ok bytes ], fs)
    else (err (not_readable path), fs)

abbrev pub update : (FilePath → Option Bytes) → FilePath → Bytes → FilePath → Option Bytes
update content path bytes p = if text_eq path p then some bytes else content p

-- `fs::write`
abbrev write_file : FilePath → Bytes → Exec FileSystem IoError (Unit {0})
write_file path bytes fs =
    if fs.writable path
    then (ok tt, record fs { content = update fs.content path bytes })
    else (err (not_writable path), fs)

abbrev zeros : ℕ → Bytes
zeros zero = []
zeros (suc n) = 0 ∷ zeros n

-- The outcome of code that may panic: `none` is the panic.
abbrev expect {ℓ} : {E A : Type ℓ} → Result E A → Option A
expect (ok a) = some a
expect (err e) = none

module _ (k : Keypairs) where
  open k use {Keypair}

  -- `expect` panics on bytes that are no key.
  pub generate_ed25519 : ℕ → Option Keypair
  generate_ed25519 seed = expect (k.ed25519_from_bytes (seed ∷ zeros 31))

  -- The random key is an argument.
  pub resolve_keypair : Keypair → Option ℕ → Option Keypair
  unfolding generate_ed25519
  resolve_keypair random none = some random
  resolve_keypair random (some seed) = generate_ed25519 seed

  pub load_or_create_identity : Keypair → FilePath → Exec FileSystem IoError Keypair
  load_or_create_identity random path fs =
      if exists fs path
      then (do bytes ← read_file path; lift (map_err invalid_data (k.from_protobuf_encoding bytes)))
          fs
      else (do
        bytes ← lift (map_err invalid_data (k.to_protobuf_encoding random))
        write_file path bytes
        pure random)
          fs

  -- `none` in the result is the panic of `generate_ed25519`.
  pub resolve_identity :
      Keypair → Option FilePath → Option ℕ → Exec FileSystem IoError (Option Keypair)
  unfolding resolve_keypair load_or_create_identity
  resolve_identity random none seed = pure (resolve_keypair random seed)
  resolve_identity random (some path) seed = do
    key ← load_or_create_identity random path
    pure (some key)
