-- ===== src/Prelude/Exec.antt =====
-- Actions on a state that may fail, for `async` code over streams and other shared objects.
use mathlib.Core.Path.{◌≡◌, refl, ap}
use sape.Prelude.Result.{Result, ok, err}

abbrev pub Exec {ℓ} : Type ℓ → Type ℓ → Type ℓ → Type ℓ
Exec S E A = S → Result E A × S

module _ {ℓ} {S E A : Type ℓ} where
  abbrev pub pure : A → Exec S E A
  pure a s = (ok a, s)

  abbrev pub raise : E → Exec S E A
  raise e s = (err e, s)

  abbrev pub lift : Result E A → Exec S E A
  lift r s = (r, s)

module _ {ℓ} {S E A B : Type ℓ} where
  abbrev pub continue : Result E A × S → (A → Exec S E B) → Result E B × S
  continue (ok a, s) f = f a s
  continue (err e, s) f = (err e, s)

  infixl 5 ◌>>=◌ ◌>>◌
  abbrev pub ◌>>=◌ : Exec S E A → (A → Exec S E B) → Exec S E B
  ◌>>=◌ m f s = continue (m s) f

  abbrev pub ◌>>◌ : Exec S E A → Exec S E B → Exec S E B
  m >> k = m >>= λ _. k

-- `match m.await { Ok(a) => …, Err(e) => … }`, with the state that `m` left.
abbrev pub match_result {ℓ} : {S E A C : Type ℓ} → Result E A × S → (A → S → C) → (E → S → C) → C
match_result (ok a, s) f g = f a s
match_result (err e, s) f g = g e s

-- `map_err` and `wrap_err` on an action.
abbrev pub map_error {ℓ} : {S E F A : Type ℓ} → (E → F) → Exec S E A → Exec S F A
map_error f m s = match_result (m s) (λ a s'. (ok a, s')) (λ e s'. (err (f e), s'))

-- Two actions that succeed one after the other: what the first gave.
pub continue-ok {ℓ} :
    {S E A B : Type ℓ} (r : Result E A × S) (k : A → S → Result E B × S) (b : B)
    → (continue r k).0 ≡ ok b
    → (a : A) × ((s : S) × ((r ≡ (ok a, s)) × ((k a s).0 ≡ ok b)))
continue-ok (ok a, s) k b h = (a, (s, (refl, h)))
continue-ok (err e, s) k b h = cc

no_value {ℓ} :
    {S E A : Type ℓ} {e : E} {b : A} {s t : S} → ◌≡◌ {A = Result E A × S} (err e, s) (ok b, t) → ⊥
no_value h = absurd (apart (ap (λ r. r.0) h))
  where
    apart : {E A : Type ℓ} {e : E} {b : A} → ◌≡◌ {A = Result E A} (err e) (ok b) → ⊥
    apart h = cc

-- The same, with the state at the end.
pub continue-done {ℓ} :
    {S E A B : Type ℓ} (r : Result E A × S) (k : A → S → Result E B × S) (b : B) (t : S)
    → continue r k ≡ (ok b, t)
    → (a : A) × ((s : S) × ((r ≡ (ok a, s)) × (k a s ≡ (ok b, t))))
continue-done (ok a, s) k b t h = (a, (s, (refl, h)))
continue-done (err e, s) k b t h = absurd (no_value h)
