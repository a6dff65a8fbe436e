-- ===== src/Terminal.antt =====
-- The prompts of the crate inquire, which src/interactive.rs calls, on a terminal in a state.
pub mod Ensures
pub mod Sample
use sape.Prelude.{
  ℕ, zero, suc, ◌+◌, ◌-◌, ◌*◌, ◌/◌, ◌%◌, ◌≤◌, ◌<◌, ◌≡◌, refl, sym, ap, ◌∙◌, ◌≢◌, ◌↔◌, ◌⊎◌, inl, inr,
  Bool, true, false, not, ◌&&◌, ◌||◌, Option, none, some, List, [], ◌∷◌, ◌++◌, map, append-nil,
  append_assoc, arith, ltb, leb, ◌==◌, if◌then◌else◌, ==_iff, Bool-cases, Option-cases, length,
  get_elem?, take, drop, length-append, take-append, drop-append, All, All-append,
}
use sape.Prelude.Result.{Result, ok, err}
use sape.Prelude.Exec.{Exec, pure, raise, map_error}
use sape.Text.{Text}

-- `inquire::validator::Validation`
pub data Validation : Type 0 where
  valid : Validation
  invalid : (message : Text) → Validation

pub data InquireError : Type 0 where
  operation_canceled operation_interrupted : InquireError
  another_error : Text → InquireError

-- The prompts, each with the text that it shows. A selection gives the place of the option.
pub record Prompts (T : Type 0) : Type 0 where
  pub text : Text → (Text → Validation) → Exec T InquireError Text
  pub select : Text → ℕ → Exec T InquireError ℕ
  pub confirm : Text → (default : Bool) → Exec T InquireError Bool

-- The documented behaviour of the prompts: a text that does not pass its validator is asked for
-- again, and what is selected is one of the options.
pub record IsInquire {T : Type 0} (prompts : Prompts T) : Type 0 where
  pub validated :
      (label : Text) (validator : Text → Validation) (t t' : T) (s : Text)
      → prompts.text label validator t ≡ (ok s, t')
      → validator s ≡ valid
  pub offered :
      (label : Text) (options : ℕ) (t t' : T) (i : ℕ)
      → prompts.select label options t ≡ (ok i, t')
      → i < options

-- What ends a conversation early: a prompt's error, or a panic.
pub data Stop : Type 0 where
  prompt_error : InquireError → Stop
  panicked : Stop

abbrev pub Dialogue : Type 0 → Type 0 → Type 0
Dialogue T A = Exec T Stop A

module _ {T : Type 0} where
  -- `.expect(…)`
  abbrev pub expect : {E A : Type 0} → Result E A → Dialogue T A
  expect (ok a) = pure a
  expect (err e) = raise panicked

  abbrev pub expect_some : {A : Type 0} → Option A → Dialogue T A
  expect_some (some a) = pure a
  expect_some none = raise panicked

  module _ (prompts : Prompts T) where
    abbrev pub ask : Text → (Text → Validation) → Dialogue T Text
    ask label validator = map_error prompt_error (prompts.text label validator)

    abbrev pub choose : Text → ℕ → Dialogue T ℕ
    choose label options = map_error prompt_error (prompts.select label options)

    abbrev pub confirm : Text → Bool → Dialogue T Bool
    confirm label default = map_error prompt_error (prompts.confirm label default)
