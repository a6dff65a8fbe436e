-- ===== src/Listen/Setup/Sure.antt =====
-- What holds wherever a listener's set-up succeeds.
use sape.Prelude.{◌≡◌, refl, Option, none, some, []}
use sape.Prelude.Result.{Result, ok, err, ok_or, map_err}
use sape.Prelude.Exec.{continue, lift, match_result}
use sape.Address.{AddressError}
use sape.Swarm.{Swarm, SwarmError}
use sape.Listen.Setup.{ListenError, swarm_failed, Listening, Setting, invalid_relay_address}

abbrev pub WhereOk :
    {A : Type 0} → (A → Listening → Type 0) → Result ListenError A × Listening → Type 0
WhereOk P (ok a, l) = P a l
WhereOk P (err e, l) = Unit

-- Where the action succeeds, this holds of its result and the state.
pub record Sure {A : Type 0} (P : A → Listening → Type 0) (r : Result ListenError A × Listening)
    : Type 0 where
  pub holds : WhereOk P r

pub continue-Sure :
    {A B : Type 0} {P : A → Listening → Type 0} {Q : B → Listening → Type 0}
    {r : Result ListenError A × Listening} {f : A → Setting B}
    → Sure P r
    → ((a : A) (l : Listening) → P a l → Sure Q (f a l))
    → Sure Q (continue r f)
continue-Sure {r = (ok a, l)} p rest = rest a l p.holds
continue-Sure {r = (err e, l)} p rest = record { holds = tt }

-- Nothing is shown and nothing registered.
abbrev pub IsFresh : Listening → Type 0
IsFresh l = (l.shown ≡ []) × (l.registered ≡ [])

pub lift-IsFresh :
    {A : Type 0} (r : Result ListenError A) (l : Listening)
    → IsFresh l
    → Sure (λ a l'. (r ≡ ok a) × IsFresh l') (lift r l)
lift-IsFresh (ok a) l fresh = record { holds = (refl, fresh) }
lift-IsFresh (err e) l fresh = record { holds = tt }

pub on_swarm-IsFresh :
    {A : Type 0} (r : Result SwarmError A × Swarm) (l : Listening)
    → IsFresh l
    → Sure
        (λ a. IsFresh)
        (match_result {C = Result ListenError A × Listening} r
          (λ a w. (ok a, record l { swarm = w }))
          (λ e w. (err (swarm_failed e), record l { swarm = w })))
on_swarm-IsFresh (ok a, w) l fresh = record { holds = fresh }
on_swarm-IsFresh (err e, w) l fresh = record { holds = tt }

pub ok_or-some :
    {A : Type 0} (o : Option A) (e : ListenError) (a : A) → ok_or o e ≡ ok a → o ≡ some a
ok_or-some none e a h = cc
ok_or-some (some b) e a h = cc

pub relay-ok :
    (r : Result AddressError (Unit {0})) → map_err invalid_relay_address r ≡ ok tt → r ≡ ok tt
relay-ok (ok u) h = cc
relay-ok (err e) h = absurd (cc h)
