-- ===== src/Terminal/Ensures.antt =====
-- What a dialogue's result satisfies; a dialogue that ensures anything does not panic.
use sape.Prelude.{ℕ, ◌<◌, ◌≡◌, refl, Bool, Option, some}
use sape.Prelude.Result.{Result, ok, err}
use sape.Prelude.Exec.{pure, continue, match_result, ◌>>=◌}
use sape.Text.{Text}
use sape.Terminal.{
  Validation, valid, InquireError, Prompts, IsInquire, Stop, prompt_error, panicked, Dialogue,
  expect, expect_some, ask, choose, confirm,
}

-- A prompt may be canceled at any point.
abbrev pub Holds : {A : Type 0} → (A → Type 0) → Result Stop A → Type 0
Holds P (ok a) = P a
Holds P (err (prompt_error e)) = Unit {0}
Holds P (err panicked) = ⊥

weaker-Holds :
    {A : Type 0} (Q P : A → Type 0) (r : Result Stop A)
    → Holds Q r
    → ((a : A) → Q a → P a)
    → Holds P r
weaker-Holds Q P (ok a) h weaker = weaker a h
weaker-Holds Q P (err (prompt_error e)) h weaker = tt
weaker-Holds Q P (err panicked) h weaker = h

module _ {T : Type 0} where
  pub record Ensures {A : Type 0} (P : A → Type 0) (m : Dialogue T A) : Type 0 where
    pub holds : (t : T) → Holds P (m t).0

  pub Ensures-pure : {A : Type 0} (P : A → Type 0) (a : A) → P a → Ensures P (pure a)
  Ensures-pure P a h = record { holds = λ t. h }

  continue-Holds :
      {A B : Type 0} (Q : A → Type 0) (P : B → Type 0) (r : Result Stop A × T)
      (k : A → Dialogue T B)
      → Holds Q r.0
      → ((a : A) → Q a → Ensures P (k a))
      → Holds P (continue r k).0
  continue-Holds Q P (ok a, t) k h next = (next a h).holds t
  continue-Holds Q P (err (prompt_error e), t) k h next = tt
  continue-Holds Q P (err panicked, t) k h next = h

  pub Ensures-mono :
      {A : Type 0} (Q P : A → Type 0) (m : Dialogue T A)
      → Ensures Q m
      → ((a : A) → Q a → P a)
      → Ensures P m
  Ensures-mono Q P m h weaker = record { holds = λ t. weaker-Holds Q P (m t).0 (h.holds t) weaker }

  pub Ensures-bind :
      {A B : Type 0} (Q : A → Type 0) (P : B → Type 0) (m : Dialogue T A) (k : A → Dialogue T B)
      → Ensures Q m
      → ((a : A) → Q a → Ensures P (k a))
      → Ensures P (m >>= k)
  Ensures-bind Q P m k h next = record { holds = λ t. continue-Holds Q P (m t) k (h.holds t) next }

  pub expect-Ensures :
      {E A : Type 0} (r : Result E A) (a : A) → r ≡ ok a → Ensures (λ b. b ≡ a) (expect r)
  expect-Ensures r a e = record { holds = λ t. rw (e, expect) refl }

  pub expect_some-Ensures :
      {A : Type 0} (o : Option A) (a : A) → o ≡ some a → Ensures (λ b. b ≡ a) (expect_some o)
  expect_some-Ensures o a e = record { holds = λ t. rw (e, expect_some) refl }

  asked :
      {A : Type 0} (P : A → Type 0) (r : Result InquireError A × T)
      → ((a : A) (t : T) → r ≡ (ok a, t) → P a)
      → Holds P
          (match_result {C = Result Stop A × T} r
            (λ a t'. (ok a, t'))
            (λ e t'. (err (prompt_error e), t'))).0
  asked P (ok a, t) h = h a t refl
  asked P (err e, t) h = tt

  module _ (prompts : Prompts T) (inquire : IsInquire prompts) where
    pub ask-Ensures :
        (label : Text) (validator : Text → Validation)
        → Ensures (λ s. validator s ≡ valid) (ask prompts label validator)
    ask-Ensures label validator = record {
      holds = λ t.
          asked (λ s. validator s ≡ valid) (prompts.text label validator t)
            (λ s t' e. inquire.validated label validator t t' s e);
    }

    pub choose-Ensures :
        (label : Text) (options : ℕ) → Ensures (λ i. i < options) (choose prompts label options)
    choose-Ensures label options = record {
      holds = λ t.
          asked (λ i. i < options) (prompts.select label options t)
            (λ i t' e. inquire.offered label options t t' i e);
    }

    pub confirm-Ensures :
        (label : Text) (default : Bool) → Ensures (λ b. Unit {0}) (confirm prompts label default)
    confirm-Ensures label default = record {
      holds = λ t. asked (λ b. Unit {0}) (prompts.confirm label default t) (λ b t' e. tt);
    }
