-- ===== src/Target/Tests.antt =====
-- Runs of the target parsers, and the theorems at concrete inputs.
use sape.Prelude.{◌≤◌, ◌≡◌, refl, [], ◌∷◌}
use sape.Prelude.Result.{ok, err}
use sape.Text.{codes}
use sape.Text.Split.{split, split_once}
use sape.Text.Number.{parse_unsigned}
use sape.Pairing.{words, is_pairing_code}
use sape.Pairing.Format.{HasCodeForm}
use sape.Libp2p.Sample.{sample}
use sape.Target.{
  dial_target_from_str, pairing_code, forward_spec_from_str, ForwardSpec, missing_separator,
  invalid_port, invalid_target,
}
use sape.Target.Dial.{dial_target_from_str_iff}
use sape.Target.Forward.{IsForwardSpec, forward_spec_from_str_iff}

valid :
    forward_spec_from_str (codes "8080:localhost:3000")
    ≡ ok (record { bind_port = 8080; target = codes "localhost:3000" })
unfolding forward_spec_from_str split_once parse_unsigned
valid = refl

refused :
    (forward_spec_from_str (codes "8080") ≡ err (missing_separator (codes "8080")))
    × (forward_spec_from_str (codes "65536:a:b") ≡ err (invalid_port (codes "65536")))
    × (forward_spec_from_str (codes "8080:noport") ≡ err (invalid_target (codes "noport")))
unfolding forward_spec_from_str split_once parse_unsigned
refused = (refl, refl, refl)

abbrev web : ForwardSpec
web = record { bind_port = 8080; target = codes "localhost:3000" }

forward_spec_from_str_iff_example :
    IsForwardSpec (codes "8080:localhost:3000") web × (web.bind_port ≤ 65535)
forward_spec_from_str_iff_example =
    (forward_spec_from_str_iff (codes "8080:localhost:3000") web).0 valid

code_target :
    dial_target_from_str sample (codes "42-river-ocean")
    ≡ ok (pairing_code (codes "42-river-ocean"))
unfolding dial_target_from_str is_pairing_code split parse_unsigned words
code_target = refl

dial_target_from_str_iff_example :
    HasCodeForm (codes "42-river-ocean") × (codes "42-river-ocean" ≡ codes "42-river-ocean")
dial_target_from_str_iff_example =
    (dial_target_from_str_iff sample (codes "42-river-ocean") (codes "42-river-ocean") (1 ∷ [])
        []).0.0
      code_target
