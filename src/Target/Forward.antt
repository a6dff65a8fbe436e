-- ===== src/Target/Forward.antt =====
-- Which texts are forward specifications, and that a printed one is read back.
use sape.Prelude.{
  ◌≤◌, ◌≡◌, refl, sym, ◌∙◌, ◌↔◌, inl, inr, true, none, some, [], ◌∷◌, ◌++◌, arith, if◌then◌else◌,
  Option-cases,
}
use sape.Prelude.Result.{Result, ok, err}
use sape.Text.{Text, has_char, Lacks}
use sape.Text.Split.{split_once, split_once-append, split_once_sound}
use sape.Text.Number.{parse_u16, to_string}
use sape.Text.Number.RoundTrip.{parse_unsigned-to_string, parse_unsigned-le, parse_unsigned-Lacks}
use sape.Target.{
  ForwardSpec, forward_spec_from_str, forward_spec_to_string, missing_separator, invalid_port,
  invalid_target, ForwardSpecError,
}

-- What `from_str` does with the two sides of the first colon.
abbrev pub outcome : Text → Text → Result ForwardSpecError ForwardSpec
outcome bind target = elim (parse_u16 bind) [
  | none ↦ err (invalid_port bind)
  | some port ↦
      if has_char b':' target
      then ok (record { bind_port = port; target = target })
      else err (invalid_target target)
]

outcome-parsed :
    (s bind target : Text)
    → split_once b':' s ≡ some (bind, target)
    → forward_spec_from_str s ≡ outcome bind target
unfolding forward_spec_from_str
outcome-parsed s bind [] h = ground arith
outcome-parsed s bind (c ∷ target) h = ground arith

-- A text of the form `bind:target`, whose first part holds no colon, is judged by its parts: first
-- the port, then the target.
pub forward_spec_from_str-parts :
    (bind target : Text)
    → Lacks b':' bind
    → forward_spec_from_str (bind ++ b':' ∷ target) ≡ outcome bind target
forward_spec_from_str-parts bind target h =
    outcome-parsed _ bind target (split_once-append b':' bind target h)

-- `s` is a port that a u16 holds, a colon, and a target with a colon of its own.
abbrev pub IsForwardSpec : Text → ForwardSpec → Type 0
IsForwardSpec s spec =
    (bind : Text) × (s ≡ bind ++ b':' ∷ spec.target)
    × (parse_u16 bind ≡ some spec.bind_port)
    × (has_char b':' spec.target ≡ true)

no_separator :
    (s : Text) → split_once b':' s ≡ none → forward_spec_from_str s ≡ err (missing_separator s)
unfolding forward_spec_from_str
no_separator s e = ground (arith, e)

outcome_sound :
    (bind target : Text) (spec : ForwardSpec)
    → outcome bind target ≡ ok spec
    → (target ≡ spec.target)
      × (parse_u16 bind ≡ some spec.bind_port)
      × (has_char b':' target ≡ true)
outcome_sound bind target spec h = elim (Option-cases (parse_u16 bind)) [
  | inl missing ↦ absurd (ground arith)
  | inr (port, e) ↦ (ground arith, ground arith, ground arith)
]

spec_sound :
    (s : Text) (spec : ForwardSpec) → forward_spec_from_str s ≡ ok spec → IsForwardSpec s spec
spec_sound s spec h = elim (Option-cases (split_once b':' s)) [
  | inl missing ↦ absurd (cc (no_separator s missing))
  | inr ((bind, target), e) ↦
      let judged = sym (outcome-parsed s bind target e) ∙ h in
      let (same, port, colon) = outcome_sound bind target spec judged in
      (bind, rw (← same) (split_once_sound b':' s bind target e).0, port, rw same at colon)
]

spec_complete :
    (s : Text) (spec : ForwardSpec) → IsForwardSpec s spec → forward_spec_from_str s ≡ ok spec
spec_complete s spec (bind, shape, port, colon) = rw shape (
    rw
      (forward_spec_from_str-parts bind spec.target
        (parse_unsigned-Lacks 65535 b':' bind spec.bind_port refl refl port))
      (ground (arith, port, colon)))

-- A text is read as a forward specification exactly when it is a port that a u16 holds, a colon
-- and the target, and the target has a colon of its own; the port read is then at most 65535.
pub forward_spec_from_str_iff :
    (s : Text) (spec : ForwardSpec)
    → (forward_spec_from_str s ≡ ok spec) ↔ (IsForwardSpec s spec × (spec.bind_port ≤ 65535))
forward_spec_from_str_iff s spec = (
  (λ h.
      let form = spec_sound s spec h in
      (form, parse_unsigned-le 65535 form.0 spec.bind_port form.2)),
  (λ h. spec_complete s spec h.0),
)

-- A specification whose port fits a u16 and whose target has a colon is read back from its print.
pub forward_spec_from_str-to_string :
    (spec : ForwardSpec)
    → spec.bind_port ≤ 65535
    → has_char b':' spec.target ≡ true
    → forward_spec_from_str (forward_spec_to_string spec) ≡ ok spec
unfolding forward_spec_to_string
forward_spec_from_str-to_string spec fits colon =
    spec_complete _ spec
      (to_string spec.bind_port, refl, parse_unsigned-to_string 65535 spec.bind_port fits, colon)
