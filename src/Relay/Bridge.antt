-- ===== src/Relay/Bridge.antt =====
-- The two streams are bridged exactly where a request succeeds, whatever fails before.
use sape.Prelude.{
  ℕ, zero, suc, ◌+◌, ◌*◌, ◌≡◌, refl, ◌∙◌, Bool, true, false, List, [], ◌∷◌, ◌++◌, arith, ltb,
  if◌then◌else◌,
}
use sape.Prelude.Result.{Result, ok, err, ok_or, map_err}
use sape.Prelude.Exec.{raise, lift, continue, match_result, ◌>>=◌, ◌>>◌}
use sape.Text.{Text}
use sape.Address.{PeerId, Multiaddr, peer_id_from_multiaddr}
use sape.Wire.{Stream, Io, IoError}
use sape.Jump
use sape.Jump.{JumpChain, JumpResult, jump_ok, jump_error}
use sape.Relay.{
  Action, dial, try_open, sleep, bridge, Session, Surroundings, RelayError, unreachable, io,
  invalid_multiaddr, missing_peer_id, empty_chain, reading_chain, act, Handler, on_inbound,
  on_outbound, set_outbound, open_outbound, forward_rest, answer_back, outbound_protocol, send_dial,
  process_chain, handle_jump_request, give_up,
}

abbrev pub bridges : List Action → ℕ
bridges [] = 0
bridges (bridge ∷ actions) = suc (bridges actions)
bridges (a ∷ actions) = bridges actions

bridges-append : (xs ys : List Action) → bridges (xs ++ ys) ≡ bridges xs + bridges ys
bridges-append [] ys = omega arith
bridges-append (bridge ∷ xs) ys = omega (arith, bridges-append xs ys)
bridges-append (dial a ∷ xs) ys = bridges-append xs ys
bridges-append (a ∷ xs) ys = bridges-append xs ys

abbrev pub successes : Result RelayError (Unit {0}) → ℕ
successes (ok u) = 1
successes (err e) = 0

-- The action bridges nothing.
record IsQuiet {A : Type 0} (m : Handler A) : Type 0 where
  at : (s : Session) → bridges (m s).1.actions ≡ bridges s.actions

-- The action bridges once if it succeeds, and else not.
record IsMatched (m : Handler (Unit {0})) : Type 0 where
  at : (s : Session) → bridges (m s).1.actions ≡ bridges s.actions + successes (m s).0

module _ {A : Type 0} where
  IsQuiet-lift : (r : Result RelayError A) → IsQuiet (lift r)
  IsQuiet-lift r = record { at = λ s. refl }

  IsQuiet-raise : (e : RelayError) → IsQuiet (raise {A = A} e)
  IsQuiet-raise e = record { at = λ s. refl }

  IsQuiet-on_inbound : (f : IoError → RelayError) (m : Io A) → IsQuiet (on_inbound f m)
  IsQuiet-on_inbound f m = record { at = λ s. inbound_at s (m s.inbound) }
    where
      inbound_at :
          (s : Session) (r : Result IoError A × Stream)
          → bridges
              (match_result {C = Result RelayError A × Session} r
                (λ a t. (ok a, record s { inbound = t }))
                (λ e t. (err (f e), record s { inbound = t }))).1.actions
            ≡ bridges s.actions
      inbound_at s (ok a, t) = refl
      inbound_at s (err e, t) = refl

  IsQuiet-on_outbound : (f : IoError → RelayError) (m : Io A) → IsQuiet (on_outbound f m)
  IsQuiet-on_outbound f m = record { at = λ s. outbound_at s (m s.outbound) }
    where
      outbound_at :
          (s : Session) (r : Result IoError A × Stream)
          → bridges
              (match_result {C = Result RelayError A × Session} r
                (λ a t. (ok a, record s { outbound = t }))
                (λ e t. (err (f e), record s { outbound = t }))).1.actions
            ≡ bridges s.actions
      outbound_at s (ok a, t) = refl
      outbound_at s (err e, t) = refl

  IsQuiet-bind :
      {B : Type 0} (m : Handler B) (k : B → Handler A)
      → IsQuiet m
      → ((b : B) → IsQuiet (k b))
      → IsQuiet (m >>= k)
  IsQuiet-bind {B} m k qm qk = record { at = λ s. bind_at s (m s) (qm.at s) }
    where
      bind_at :
          (s : Session) (r : Result RelayError B × Session)
          → bridges r.1.actions ≡ bridges s.actions
          → bridges (continue r k).1.actions ≡ bridges s.actions
      bind_at s (ok b, t) e = (qk b).at t ∙ e
      bind_at s (err x, t) e = e

IsMatched-bind :
    {B : Type 0} (m : Handler B) (k : B → Handler (Unit {0}))
    → IsQuiet m
    → ((b : B) → IsMatched (k b))
    → IsMatched (m >>= k)
IsMatched-bind {B} m k qm qk = record { at = λ s. bind_at s (m s) (qm.at s) }
  where
    bind_at :
        (s : Session) (r : Result RelayError B × Session)
        → bridges r.1.actions ≡ bridges s.actions
        → bridges (continue r k).1.actions ≡ bridges s.actions + successes (continue r k).0
    bind_at s (ok b, t) e = rw (← e) ((qk b).at t)
    bind_at s (err x, t) e = omega (arith, e)

IsMatched-act : IsMatched (act bridge)
IsMatched-act = record { at = λ s. bridges-append s.actions (bridge ∷ []) }

-- A request that fails after nothing was bridged.
IsMatched-raise : (m : Handler (Unit {0})) (e : RelayError) → IsQuiet m → IsMatched (m >> raise e)
IsMatched-raise m e q = IsMatched-bind m (λ u. raise e) q (λ u. record { at = λ s. omega arith })

IsQuiet-act : (a : Action) → bridges (a ∷ []) ≡ 0 → IsQuiet (act a)
IsQuiet-act a h = record { at = λ s. omega (arith, bridges-append s.actions (a ∷ [])) }

ruleset quiet_rules =
    (IsQuiet-lift, IsQuiet-raise, IsQuiet-on_inbound, IsQuiet-on_outbound, IsQuiet-bind)

module _ (env : Surroundings) where
  IsQuiet-give_up : (peer : PeerId) (e : Text) → IsQuiet (give_up env peer e)
  unfolding give_up
  IsQuiet-give_up peer e = search quiet_rules

  IsQuiet-answer_back : (r : JumpResult) → IsQuiet (answer_back env r)
  IsQuiet-answer_back jump_ok = search quiet_rules
  IsQuiet-answer_back (jump_error e) = search quiet_rules

  IsQuiet-forward_rest : (hops : List Text) → IsQuiet (forward_rest env hops)
  unfolding forward_rest
  IsQuiet-forward_rest [] = search quiet_rules
  IsQuiet-forward_rest (hop ∷ hops) = search (quiet_rules, IsQuiet-answer_back)

  IsQuiet-set_outbound : (t : Stream) → IsQuiet (set_outbound t)
  IsQuiet-set_outbound t = record { at = λ s. refl }

  IsQuiet-if :
      (b : Bool) (m n : Handler (Unit {0})) → IsQuiet m → IsQuiet n → IsQuiet (if b then m else n)
  IsQuiet-if true m n qm qn = qm
  IsQuiet-if false m n qm qn = qn

  IsQuiet-attempt :
      (peer : PeerId) (attempt : ℕ) (again : Handler (Unit {0})) (r : Result Text Stream)
      → IsQuiet again
      → IsQuiet {A = Unit {0}} (elim r [
        | ok stream ↦ set_outbound stream
        | err e ↦
            if ltb attempt 9
            then (do act (sleep (500 * (attempt + 1))); again)
            else give_up env peer e
      ])
  IsQuiet-attempt peer attempt again (ok stream) q = IsQuiet-set_outbound stream
  IsQuiet-attempt peer attempt again (err e) q =
      IsQuiet-if (ltb attempt 9) _ _
        (IsQuiet-bind (act (sleep (500 * (attempt + 1)))) (λ u. again)
          (IsQuiet-act (sleep (500 * (attempt + 1))) refl) (λ u. q))
        (IsQuiet-give_up peer e)

  IsQuiet-open_outbound :
      (peer : PeerId) (protocol : Text) (left attempt : ℕ)
      → IsQuiet (open_outbound env peer protocol left attempt)
  unfolding open_outbound
  IsQuiet-open_outbound peer protocol zero attempt = IsQuiet-raise unreachable
  IsQuiet-open_outbound peer protocol (suc left) attempt =
      IsQuiet-bind (act (try_open peer protocol)) _ (IsQuiet-act (try_open peer protocol) refl)
        (λ u.
          IsQuiet-attempt peer attempt (open_outbound env peer protocol left (attempt + 1))
            (env.opens peer protocol attempt)
            (IsQuiet-open_outbound peer protocol left (attempt + 1)))

  IsQuiet-send_dial : (addr : Multiaddr) → IsQuiet (send_dial env addr)
  unfolding send_dial
  IsQuiet-send_dial addr =
      IsQuiet-if env.dial_channel_open _ _ (IsQuiet-act (dial addr) refl) (IsQuiet-raise _)

  IsMatched-process_chain : (hops : List Text) → IsMatched (process_chain env hops)
  unfolding process_chain
  IsMatched-process_chain [] = IsMatched-raise _ empty_chain (IsQuiet-on_inbound io _)
  IsMatched-process_chain (hop ∷ hops) =
      IsMatched-bind _ _
        (IsQuiet-lift (map_err invalid_multiaddr (env.forms.multiaddr_from_str hop)))
        λ addr.
          IsMatched-bind _ _
            (IsQuiet-lift (ok_or (peer_id_from_multiaddr addr) (missing_peer_id hop)))
            λ peer. IsMatched-bind _ _ (IsQuiet-send_dial addr) λ u.
              IsMatched-bind _ _ (IsQuiet-open_outbound peer (outbound_protocol env hops) 10 0)
                λ u'. IsMatched-bind _ _ (IsQuiet-forward_rest hops) λ u''.
                  IsMatched-bind _ _
                    (IsQuiet-on_inbound io (Jump.write_jump_result env.results jump_ok))
                    (λ u3. IsMatched-act)

  IsMatched-handle : IsMatched (handle_jump_request env)
  unfolding handle_jump_request
  IsMatched-handle =
      IsMatched-bind _ _ (IsQuiet-on_inbound reading_chain _) (λ c. IsMatched-process_chain c.hops)

  -- Whatever the streams bring and however the attempts go, a request bridges its two streams once
  -- if it succeeds, and never if it ends in an error.
  pub handle_jump_request-bridges :
      (s : Session)
      → bridges (handle_jump_request env s).1.actions
        ≡ bridges s.actions + successes (handle_jump_request env s).0
  handle_jump_request-bridges s = IsMatched-handle.at s
