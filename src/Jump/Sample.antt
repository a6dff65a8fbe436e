-- ===== src/Jump/Sample.antt =====
-- Concrete encodings of jump chains and jump results.
use sape.Prelude.{
  ℕ, zero, suc, ◌≤◌, ◌≡◌, refl, List, [], ◌∷◌, ◌++◌, ◌==◌, if◌then◌else◌, length, take, drop,
}
use sape.Prelude.Result.{Result, ok, err}
use sape.Text.{Text, codes}
use sape.Wire.{Bytes, Codec, max_request_size}
use sape.Wire.Frame.{IsSendable}
use sape.Jump.{JumpChain, JumpResult, jump_ok, jump_error}

abbrev encode_hops : List Text → Bytes
encode_hops [] = []
encode_hops (hop ∷ hops) = length hop ∷ (hop ++ encode_hops hops)

unfoldable pub decode_hops : ℕ → Bytes → List Text
decode_hops f [] = []
decode_hops zero (n ∷ bytes) = []
decode_hops (suc f) (n ∷ bytes) = take n bytes ∷ decode_hops f (drop n bytes)

abbrev pub chain_codec : Codec JumpChain
chain_codec = record {
  to_allocvec = λ c. ok (encode_hops c.hops);
  from_bytes = λ bytes. ok (record { hops = decode_hops (length bytes) bytes });
}

abbrev pub encode_result : JumpResult → Bytes
encode_result jump_ok = 0 ∷ []
encode_result (jump_error e) = 1 ∷ e

abbrev decode_result : Bytes → Result Text JumpResult
decode_result [] = err (codes "unexpected end")
decode_result (tag ∷ e) = if tag == 0 then ok jump_ok else ok (jump_error e)

abbrev pub result_codec : Codec JumpResult
result_codec = record { to_allocvec = λ r. ok (encode_result r); from_bytes = decode_result }

pub decode-encode_result : (r : JumpResult) → decode_result (encode_result r) ≡ ok r
decode-encode_result jump_ok = refl
decode-encode_result (jump_error e) = refl

abbrev pub result_sendable :
    (r : JumpResult) → length (encode_result r) ≤ max_request_size → IsSendable result_codec r
result_sendable r h = record {
  bytes = encode_result r;
  encoded = refl;
  decoded = decode-encode_result r;
  fits = h;
}
