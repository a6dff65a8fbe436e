-- ===== src/Terminal/Sample.antt =====
-- A terminal that is a list of typed lines, which shows that the assumptions on prompts can be met.
use sape.Prelude.{ℕ, ◌<◌, ◌≡◌, Bool, true, false, not, List, [], ◌∷◌, arith, ltb}
use sape.Prelude.Result.{Result, ok, err}
use sape.Text.{Text}
use sape.Terminal.{Validation, valid, invalid, InquireError, operation_canceled, Prompts, IsInquire}

abbrev pub Lines : Type 0
Lines = List Text

pub typed : (Text → Validation) → Lines → Result InquireError Text × Lines
typed validator [] = (err operation_canceled, [])
typed validator (s ∷ ss) = elim (validator s) [
  | valid ↦ (ok s, ss)
  | invalid m ↦ typed validator ss
]

-- The first code point of a line is the place of the option.
abbrev place : Text → ℕ
place [] = 0
place (c ∷ s) = c

pub selected : ℕ → Lines → Result InquireError ℕ × Lines
selected options [] = (err operation_canceled, [])
selected options (s ∷ ss) = elim (ltb (place s) options) [
  | true ↦ (ok (place s), ss)
  | false ↦ selected options ss
]

-- An empty line is the default, any other its opposite.
pub confirmed : Bool → Lines → Result InquireError Bool × Lines
confirmed default [] = (err operation_canceled, [])
confirmed default ([] ∷ ss) = (ok default, ss)
confirmed default ((c ∷ s) ∷ ss) = (ok (not default), ss)

unfoldable pub sample : Prompts Lines
unfolding typed selected confirmed
sample = record { text = λ label. typed; select = λ label. selected; confirm = λ label. confirmed }

typed-valid :
    (validator : Text → Validation) (t t' : Lines) (s : Text)
    → typed validator t ≡ (ok s, t')
    → validator s ≡ valid
unfolding typed
typed-valid validator [] t' s h = cc
typed-valid validator (l ∷ ls) t' s h = ground (arith, typed-valid validator ls t' s)

selected_within :
    (options : ℕ) (t t' : Lines) (i : ℕ) → selected options t ≡ (ok i, t') → i < options
unfolding selected
selected_within options [] t' i h = cc
selected_within options (l ∷ ls) t' i h = ground (arith, selected_within options ls t' i)

pub sample-IsInquire : IsInquire sample
unfolding sample
sample-IsInquire = record { validated = λ label. typed-valid; offered = λ label. selected_within }
