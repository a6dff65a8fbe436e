-- ===== src/Identity/Tests.antt =====
-- Keys that are their 32 bytes, and the theorems at concrete files.
use sape.Prelude.{◌≡◌, refl, ◌≢◌, true, none, [], ◌∷◌, arith, ◌==◌, if◌then◌else◌, length}
use sape.Prelude.Result.{ok, err}
use sape.Text.{codes}
use sape.Identity.{Bytes, Keypairs, FilePath, FileSystem, load_or_create_identity}
use sape.Identity.Persist.{load_or_create_identity_again}

abbrev plain : Keypairs
plain = record {
  Keypair = Bytes;
  ed25519_from_bytes = λ bytes. if length bytes == 32 then ok bytes else err (codes "length");
  to_protobuf_encoding = λ key. ok (8 ∷ key);
  from_protobuf_encoding = λ bytes. elim bytes [ [] ↦ err (codes "empty") | tag ∷ key ↦ ok key ];
}

abbrev blank : FileSystem
blank = record { content = λ path. none; readable = λ path. true; writable = λ path. true }

abbrev key_file : FilePath
key_file = codes "relay.key"

load_or_create_identity_again_example :
    ((load_or_create_identity plain (1 ∷ []) key_file blank).0 ≡ ok (1 ∷ []))
    × (load_or_create_identity plain
          (2 ∷ [])
          key_file
          (load_or_create_identity plain (1 ∷ []) key_file blank).1
        ≡ (ok (1 ∷ []), (load_or_create_identity plain (1 ∷ []) key_file blank).1))
load_or_create_identity_again_example =
    load_or_create_identity_again plain (1 ∷ []) (2 ∷ []) key_file blank (8 ∷ 1 ∷ []) refl refl refl
      refl refl

other_path : key_file ≢ codes "x"
other_path = cc

key_of_32 :
    (bytes : Bytes) → length bytes ≡ 32 → (key : Bytes) × (plain.ed25519_from_bytes bytes ≡ ok key)
key_of_32 bytes h = (bytes, ground arith)
