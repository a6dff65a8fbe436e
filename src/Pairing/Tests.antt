-- ===== src/Pairing/Tests.antt =====
-- Runs of the pairing codes, and the theorems at concrete inputs.
use sape.Prelude.{◌≡◌, refl, true, false, some}
use sape.Text.{codes}
use sape.Text.Split.{split}
use sape.Text.Number.{parse_unsigned, to_string}
use sape.Pairing.{words, generate_code, is_pairing_code}
use sape.Pairing.Format.{HasCodeForm, is_pairing_code_iff}

valid : is_pairing_code (codes "42-river-ocean") ≡ true
unfolding is_pairing_code split parse_unsigned words
valid = refl

signed : is_pairing_code (codes "+07-river-ocean") ≡ true
unfolding is_pairing_code split parse_unsigned words
signed = refl

too_large : is_pairing_code (codes "100-river-ocean") ≡ false
unfolding is_pairing_code split parse_unsigned words
too_large = refl

four_parts : is_pairing_code (codes "42-river-ocean-extra") ≡ false
unfolding is_pairing_code split parse_unsigned words
four_parts = refl

made : generate_code 0 0 255 ≡ some (codes "0-acorn-zephyr")
unfolding generate_code words to_string
made = refl

is_pairing_code_iff_example : HasCodeForm (codes "42-river-ocean")
is_pairing_code_iff_example = (is_pairing_code_iff (codes "42-river-ocean")).0 valid
