-- ===== src/Identity/Persist.antt =====
-- The identity file is written once and read ever after.
use sape.Prelude.{ℕ, ◌≡◌, refl, ◌≢◌, ◌⊎◌, true, Option, none, some, ◌∷◌, arith, length}
use sape.Prelude.Result.{ok}
use sape.Text.{text_eq_refl, text_eq_iff}
use sape.Identity.{
  Bytes, Keypairs, FilePath, FileSystem, update, zeros, generate_ed25519, load_or_create_identity,
  resolve_identity,
}

module _ (k : Keypairs) where
  open k use {Keypair}

  creates :
      (random : Keypair) (path : FilePath) (fs : FileSystem) (bytes : Bytes)
      → fs.content path ≡ none
      → fs.writable path ≡ true
      → k.to_protobuf_encoding random ≡ ok bytes
      → load_or_create_identity k random path fs
        ≡ (ok random, record fs { content = update fs.content path bytes })
  unfolding load_or_create_identity
  creates random path fs bytes absent writable encoded = ground arith

  loads :
      (random key : Keypair) (path : FilePath) (fs : FileSystem) (bytes : Bytes)
      → fs.content path ≡ some bytes
      → fs.readable path ≡ true
      → k.from_protobuf_encoding bytes ≡ ok key
      → load_or_create_identity k random path fs ≡ (ok key, fs)
  unfolding load_or_create_identity
  loads random key path fs bytes present readable decoded = ground arith

  -- Where no identity file exists, the path can be written and read, and the fresh key is read
  -- back from its encoding, the first run uses the fresh key and every later run uses the same
  -- key, whatever key it would have drawn, and leaves the files as they are.
  pub load_or_create_identity_again :
      (random later : Keypair) (path : FilePath) (fs : FileSystem) (bytes : Bytes)
      → fs.content path ≡ none
      → fs.writable path ≡ true
      → fs.readable path ≡ true
      → k.to_protobuf_encoding random ≡ ok bytes
      → k.from_protobuf_encoding bytes ≡ ok random
      → ((load_or_create_identity k random path fs).0 ≡ ok random)
        × (load_or_create_identity k later path (load_or_create_identity k random path fs).1
            ≡ (ok random, (load_or_create_identity k random path fs).1))
  load_or_create_identity_again random later path fs bytes absent writable readable encoded
        decoded =
      let first = creates random path fs bytes absent writable encoded in
      (
        rw first,
        rw first (
            loads later random path (record fs { content = update fs.content path bytes }) bytes
              (rw (text_eq_refl path)) readable decoded),
      )

  -- A file that exists keeps its content, whatever the outcome, and so does every path but the
  -- identity file's.
  pub load_or_create_identity_frame :
      (random : Keypair) (path q : FilePath) (fs : FileSystem)
      → (fs.content q ≢ none) ⊎ (path ≢ q)
      → (load_or_create_identity k random path fs).1.content q ≡ fs.content q
  unfolding load_or_create_identity
  load_or_create_identity_frame random path q fs h = ground (arith, text_eq_iff path q)

  generate_ed25519-some :
      ((bytes : Bytes)
        → length bytes ≡ 32
        → (key : Keypair) × (k.ed25519_from_bytes bytes ≡ ok key))
      → (seed : ℕ) → (key : Keypair) × (generate_ed25519 k seed ≡ some key)
  unfolding generate_ed25519
  generate_ed25519-some total seed =
      let (key, made) = total (seed ∷ zeros 31) refl in (key, rw made)

  -- If every 32 bytes make an Ed25519 key, resolving an identity does not panic: the outcome is a
  -- key or an error of the file, for every identity file and every seed.
  pub resolve_identity-ne-panic :
      ((bytes : Bytes)
        → length bytes ≡ 32
        → (key : Keypair) × (k.ed25519_from_bytes bytes ≡ ok key))
      → (random : Keypair) (file : Option FilePath) (seed : Option ℕ) (fs : FileSystem)
      → (resolve_identity k random file seed fs).0 ≢ ok none
  unfolding resolve_identity
  resolve_identity-ne-panic total random none none fs = λ e. ground arith
  resolve_identity-ne-panic total random none (some seed) fs =
      let (key, made) = generate_ed25519-some total seed in λ e. ground (arith, made)
  resolve_identity-ne-panic total random (some path) seed fs = λ e. ground arith
