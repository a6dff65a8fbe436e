-- ===== src/Relay/Confined/Counts.antt =====
-- Counting what a handler makes a relay do.
use sape.Prelude.{
  ℕ, suc, ◌+◌, ◌≤◌, ◌≡◌, refl, sym, ap, ◌∙◌, List, [], ◌∷◌, ◌++◌, append-nil, append_assoc, arith,
  All, All-append,
}
use sape.Prelude.Result.{Result, ok, err}
use sape.Prelude.Exec.{raise, lift, continue, match_result, ◌>>=◌}
use sape.Text.{Text}
use sape.Address.{PeerId, Multiaddr}
use sape.Wire.{Stream, Io, IoError}
use sape.Relay.{
  Action, dial, try_open, sleep, bridge, Session, RelayError, act, Handler, on_inbound, on_outbound,
}
use sape.Relay.Retry.{slept, slept-append}

abbrev pub dials : List Action → ℕ
dials [] = 0
dials (dial addr ∷ actions) = suc (dials actions)
dials (a ∷ actions) = dials actions

abbrev pub tries : List Action → ℕ
tries [] = 0
tries (try_open peer protocol ∷ actions) = suc (tries actions)
tries (a ∷ actions) = tries actions

-- The action is on behalf of this peer only: its address is dialed, and streams to it are tried, for
-- one protocol.
abbrev pub IsFor : Multiaddr → PeerId → Text → Action → Type 0
IsFor addr peer protocol (dial a) = a ≡ addr
IsFor addr peer protocol (try_open p proto) = (p ≡ peer) × (proto ≡ protocol)
IsFor addr peer protocol (sleep ms) = Unit
IsFor addr peer protocol bridge = Unit

-- What was added to the actions, and how much of each kind it is at most.
pub record Extra (P : Action → Type 0) (n d ms : ℕ) (xs ys : List Action) : Type 0 where
  pub extra : List Action
  pub grown : ys ≡ xs ++ extra
  pub each : All P extra
  pub tries_le : tries extra ≤ n
  pub dials_le : dials extra ≤ d
  pub slept_le : slept extra ≤ ms

tries-append : (xs ys : List Action) → tries (xs ++ ys) ≡ tries xs + tries ys
tries-append [] ys = omega arith
tries-append (dial a ∷ xs) ys = tries-append xs ys
tries-append (try_open p t ∷ xs) ys = omega (arith, tries-append xs ys)
tries-append (sleep m ∷ xs) ys = tries-append xs ys
tries-append (bridge ∷ xs) ys = tries-append xs ys

dials-append : (xs ys : List Action) → dials (xs ++ ys) ≡ dials xs + dials ys
dials-append [] ys = omega arith
dials-append (dial a ∷ xs) ys = omega (arith, dials-append xs ys)
dials-append (try_open p t ∷ xs) ys = dials-append xs ys
dials-append (sleep m ∷ xs) ys = dials-append xs ys
dials-append (bridge ∷ xs) ys = dials-append xs ys

module _ (P : Action → Type 0) where
  nothing : (n d ms : ℕ) (xs : List Action) → Extra P n d ms xs xs
  nothing n d ms xs = record {
    extra = [];
    grown = sym (append-nil xs);
    each = tt;
    tries_le = omega arith;
    dials_le = omega arith;
    slept_le = omega arith;
  }

  both :
      {n d ms n' d' ms' : ℕ} {xs ys zs : List Action}
      → Extra P n d ms xs ys
      → Extra P n' d' ms' ys zs
      → Extra P (n + n') (d + d') (ms + ms') xs zs
  both {xs} a b = record {
    extra = a.extra ++ b.extra;
    grown = b.grown ∙ ap (λ l. l ++ b.extra) a.grown ∙ append_assoc xs a.extra b.extra;
    each = All-append P a.extra b.extra a.each b.each;
    tries_le = omega (arith, tries-append a.extra b.extra, a.tries_le, b.tries_le);
    dials_le = omega (arith, dials-append a.extra b.extra, a.dials_le, b.dials_le);
    slept_le = omega (arith, slept-append a.extra b.extra, a.slept_le, b.slept_le);
  }

  -- The first part alone, within the bounds of both.
  widened :
      {n d ms : ℕ} (n' d' ms' : ℕ) {xs ys : List Action}
      → Extra P n d ms xs ys
      → Extra P (n + n') (d + d') (ms + ms') xs ys
  widened n' d' ms' a = record {
    extra = a.extra;
    grown = a.grown;
    each = a.each;
    tries_le = omega (arith, a.tries_le);
    dials_le = omega (arith, a.dials_le);
    slept_le = omega (arith, a.slept_le);
  }

  -- The handler adds actions of this kind, within these bounds.
  pub record Adds (n d ms : ℕ) {A : Type 0} (m : Handler A) : Type 0 where
    pub at : (s : Session) → Extra P n d ms s.actions (m s).1.actions

  pub Adds-on_inbound :
      {A : Type 0} (f : IoError → RelayError) (m : Io A) → Adds 0 0 0 (on_inbound f m)
  Adds-on_inbound f m = record { at = λ s. inbound_at f s (m s.inbound) }
    where
      inbound_at :
          {A : Type 0} (f : IoError → RelayError) (s : Session) (r : Result IoError A × Stream)
          → Extra P 0 0 0 s.actions
              (match_result {C = Result RelayError A × Session} r
                (λ a t. (ok a, record s { inbound = t }))
                (λ e t. (err (f e), record s { inbound = t }))).1.actions
      inbound_at f s (ok a, t) = nothing 0 0 0 s.actions
      inbound_at f s (err e, t) = nothing 0 0 0 s.actions

  pub Adds-on_outbound :
      {A : Type 0} (f : IoError → RelayError) (m : Io A) → Adds 0 0 0 (on_outbound f m)
  Adds-on_outbound f m = record { at = λ s. outbound_at f s (m s.outbound) }
    where
      outbound_at :
          {A : Type 0} (f : IoError → RelayError) (s : Session) (r : Result IoError A × Stream)
          → Extra P 0 0 0 s.actions
              (match_result {C = Result RelayError A × Session} r
                (λ a t. (ok a, record s { outbound = t }))
                (λ e t. (err (f e), record s { outbound = t }))).1.actions
      outbound_at f s (ok a, t) = nothing 0 0 0 s.actions
      outbound_at f s (err e, t) = nothing 0 0 0 s.actions

  pub Adds-bind :
      {A B : Type 0} (n d ms n' d' ms' : ℕ) (m : Handler B) (k : B → Handler A)
      → Adds n d ms m
      → ((b : B) → Adds n' d' ms' (k b))
      → Adds (n + n') (d + d') (ms + ms') (m >>= k)
  Adds-bind n d ms n' d' ms' m k am ak = record {
    at = λ s. bind_at n' d' ms' s (m s) k (am.at s) (λ b t. (ak b).at t);
  }
    where
      bind_at :
          {A B : Type 0} {n d ms : ℕ} (n' d' ms' : ℕ) (s : Session)
          (r : Result RelayError B × Session) (k : B → Handler A)
          → Extra P n d ms s.actions r.1.actions
          → ((b : B) (t : Session) → Extra P n' d' ms' t.actions (k b t).1.actions)
          → Extra P (n + n') (d + d') (ms + ms') s.actions (continue r k).1.actions
      bind_at n' d' ms' s (ok b, t) k e next = both e (next b t)
      bind_at n' d' ms' s (err x, t) k e next = widened n' d' ms' e

  pub Adds-act :
      (a : Action) → P a → Adds (tries (a ∷ [])) (dials (a ∷ [])) (slept (a ∷ [])) (act a)
  Adds-act a p = record {
    at = λ s. record {
      extra = a ∷ [];
      grown = refl;
      each = (p, tt);
      tries_le = omega arith;
      dials_le = omega arith;
      slept_le = omega arith;
    };
  }

  -- A handler that leaves the actions alone.
  pub Adds-idle :
      {A : Type 0} (n d ms : ℕ) (m : Handler A)
      → ((s : Session) → (m s).1.actions ≡ s.actions)
      → Adds n d ms m
  Adds-idle n d ms m same = record { at = λ s. rw (same s) (nothing n d ms s.actions) }

  pub Adds-le :
      {A : Type 0} {n d ms : ℕ} (n' d' ms' : ℕ) (m : Handler A)
      → Adds n d ms m
      → n ≤ n'
      → d ≤ d'
      → ms ≤ ms'
      → Adds n' d' ms' m
  Adds-le n' d' ms' m a ln ld lm = record {
    at = λ s.
        let e = a.at s in
        record {
          extra = e.extra;
          grown = e.grown;
          each = e.each;
          tries_le = omega (arith, e.tries_le, ln);
          dials_le = omega (arith, e.dials_le, ld);
          slept_le = omega (arith, e.slept_le, lm);
        };
  }

  pub Adds-raise : {A : Type 0} (e : RelayError) → Adds 0 0 0 (raise {A = A} e)
  Adds-raise e = Adds-idle 0 0 0 (raise e) (λ s. refl)

  pub Adds-lift : {A : Type 0} (r : Result RelayError A) → Adds 0 0 0 (lift r)
  Adds-lift r = Adds-idle 0 0 0 (lift r) (λ s. refl)
