-- ===== src/Tunnel/Sample.antt =====
-- A concrete encoding of tunnel requests, at which the theorems about any encoding are tried.
use sape.Prelude.{◌≤◌, ◌≡◌, refl, true, false, [], ◌∷◌, ◌==◌, if◌then◌else◌, length}
use sape.Prelude.Result.{Result, ok, err}
use sape.Text.{Text, codes}
use sape.Wire.{Bytes, Codec, max_request_size}
use sape.Wire.Frame.{IsSendable}
use sape.Tunnel.{TunnelRequest, netcat, local_forward, reverse_forward}

abbrev encode : TunnelRequest → Bytes
encode netcat = 0 ∷ []
encode (local_forward target) = 1 ∷ target
encode (reverse_forward port target gateway) = 2 ∷ port ∷ (if gateway then 1 else 0) ∷ target

abbrev decode : Bytes → Result Text TunnelRequest
decode (tag ∷ bytes) =
    if tag == 0 then ok netcat else if tag == 1 then ok (local_forward bytes) else elim bytes [
      | port ∷ gateway ∷ target ↦ ok (reverse_forward port target (gateway == 1))
      | other ↦ err (codes "unexpected end")
    ]
decode [] = err (codes "unexpected end")

abbrev pub sample : Codec TunnelRequest
sample = record { to_allocvec = λ r. ok (encode r); from_bytes = decode }

pub decode-encode : (r : TunnelRequest) → decode (encode r) ≡ ok r
decode-encode netcat = refl
decode-encode (local_forward target) = refl
decode-encode (reverse_forward port target true) = refl
decode-encode (reverse_forward port target false) = refl

abbrev pub sendable :
    (r : TunnelRequest) → length (encode r) ≤ max_request_size → IsSendable sample r
sendable r h = record { bytes = encode r; encoded = refl; decoded = decode-encode r; fits = h }
