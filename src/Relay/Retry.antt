-- ===== src/Relay/Retry.antt =====
-- The attempts to reach the next hop.
use sape.Prelude.{
  ℕ, zero, suc, ◌+◌, ◌-◌, ◌*◌, ◌≤◌, ◌<◌, ◌≡◌, refl, ap, ◌∙◌, List, [], ◌∷◌, ◌++◌, append-nil,
  append_assoc, arith, length,
}
use sape.Prelude.Result.{ok, err}
use sape.Text.{Text}
use sape.Address.{PeerId}
use sape.Wire.{Stream}
use sape.Wire.Frame.{framed, IsSendable, write-sendable}
use sape.Jump.{jump_error}
use sape.Relay.{
  Action, dial, bridge, try_open, sleep, Session, Surroundings, not_connected, hop_error,
  open_outbound, give_up,
}

-- The actions of `n` attempts that fail, the first of them the attempt `from`.
abbrev pub failures : PeerId → Text → ℕ → ℕ → List Action
failures peer protocol from zero = []
failures peer protocol from (suc n) =
    try_open peer protocol ∷ sleep (500 * (from + 1)) ∷ failures peer protocol (from + 1) n

-- The attempts from `from` on, `n` of them, fail.
abbrev pub AllFail : Surroundings → PeerId → Text → ℕ → ℕ → Type 0
AllFail env peer protocol from zero = Unit
AllFail env peer protocol from (suc n) =
    ((e : Text) × (env.opens peer protocol from ≡ err e)) × AllFail env peer protocol (from + 1) n

-- The milliseconds that the waits among the actions take together.
abbrev pub slept : List Action → ℕ
slept [] = 0
slept (sleep ms ∷ actions) = ms + slept actions
slept (a ∷ actions) = slept actions

pub slept-append : (xs ys : List Action) → slept (xs ++ ys) ≡ slept xs + slept ys
slept-append [] ys = omega arith
slept-append (dial a ∷ xs) ys = slept-append xs ys
slept-append (try_open p t ∷ xs) ys = slept-append xs ys
slept-append (sleep m ∷ xs) ys = omega (arith, slept-append xs ys)
slept-append (bridge ∷ xs) ys = slept-append xs ys

module _ (env : Surroundings) (peer : PeerId) (protocol : Text) where
  open_step-fail :
      (left attempt : ℕ) (e : Text) (s : Session)
      → env.opens peer protocol attempt ≡ err e
      → attempt < 9
      → open_outbound env peer protocol (suc left) attempt s
        ≡ open_outbound env peer protocol left (attempt + 1) (record s {
          actions = (s.actions ++ try_open peer protocol ∷ []) ++ sleep (500 * (attempt + 1)) ∷ [];
        })
  unfolding open_outbound
  open_step-fail left attempt e s h lt = rw (h, open_outbound) (ground arith)

  open_step-ok :
      (left attempt : ℕ) (t : Stream) (s : Session)
      → env.opens peer protocol attempt ≡ ok t
      → open_outbound env peer protocol (suc left) attempt s
        ≡ (ok tt, record s { outbound = t; actions = s.actions ++ try_open peer protocol ∷ [] })
  unfolding open_outbound
  open_step-ok left attempt t s h = rw (h, open_outbound) refl

  open_step-last :
      (left : ℕ) (e : Text) (s : Session)
      → env.opens peer protocol 9 ≡ err e
      → open_outbound env peer protocol (suc left) 9 s
        ≡ give_up env peer e (record s { actions = s.actions ++ try_open peer protocol ∷ [] })
  unfolding open_outbound
  open_step-last left e s h = rw (h, open_outbound) refl

  open_fails :
      (n left total attempt : ℕ) (s : Session)
      → total ≡ n + left
      → attempt + n ≤ 9
      → AllFail env peer protocol attempt n
      → open_outbound env peer protocol total attempt s
        ≡ open_outbound env peer protocol left
            (attempt + n)
            (record s { actions = s.actions ++ failures peer protocol attempt n })
  open_fails zero left total attempt s e h all =
      let same : total ≡ left = omega arith in
      let stay : attempt + 0 ≡ attempt = omega arith in rw (same, stay, append-nil)
  open_fails (suc n) left zero attempt s e h all = absurd (omega arith)
  open_fails (suc n) left (suc total) attempt s e h ((cause, failed), all) =
      let next = record s {
        actions = (s.actions ++ try_open peer protocol ∷ []) ++ sleep (500 * (attempt + 1)) ∷ [];
      } in
      let rest = open_fails n left total (attempt + 1) next (omega arith) (omega arith) all in
      let place : attempt + 1 + n ≡ attempt + suc n = omega arith in
      rw (open_step-fail total attempt cause s failed (omega arith))
        (rw (rest, place) (simp append_assoc))

  -- If the attempts before the attempt `k` fail and that one succeeds, it is the last: each
  -- failure is followed by a wait of half a second more than the one before, the stream is the one
  -- that was opened, and nothing else changes. `k` may be any of the ten attempts.
  pub open_outbound-first_success :
      (k : ℕ) (t : Stream) (s : Session)
      → k < 10
      → AllFail env peer protocol 0 k
      → env.opens peer protocol k ≡ ok t
      → open_outbound env peer protocol 10 0 s ≡ (
        ok tt,
        record s {
          outbound = t;
          actions = s.actions ++ (failures peer protocol 0 k ++ try_open peer protocol ∷ []);
        },
      )
  open_outbound-first_success k t s h all opened =
      let left : 10 ≡ k + suc (9 - k) = omega arith in
      let place : 0 + k ≡ k = omega arith in
      rw (open_fails k (suc (9 - k)) 10 0 s left (omega arith) all, place)
        (rw
          (open_step-ok (9 - k) k t (record s { actions = s.actions ++ failures peer protocol 0 k })
            opened)
          (rw append_assoc))

  -- Ten attempts that fail, up to the answer.
  pub open_outbound-give_up :
      (e : Text) (s : Session)
      → AllFail env peer protocol 0 9
      → env.opens peer protocol 9 ≡ err e
      → open_outbound env peer protocol 10 0 s
        ≡ give_up env peer e (record s {
          actions = s.actions ++ (failures peer protocol 0 9 ++ try_open peer protocol ∷ []);
        })
  open_outbound-give_up e s all failed =
      rw (open_fails 9 1 10 0 s (omega arith) (omega arith) all) (
        rw
          (open_step-last 0 e (record s { actions = s.actions ++ failures peer protocol 0 9 })
            failed)
          (rw append_assoc))

  -- The answer to the requester, and the error.
  answers :
      (e : Text) (s : Session) (h : IsSendable env.results (jump_error (hop_error env peer e)))
      → length h.bytes + 4 ≤ s.inbound.room
      → give_up env peer e s ≡ (
        err (not_connected (hop_error env peer e)),
        record s {
          inbound = record s.inbound {
            outgoing = s.inbound.outgoing ++ framed h.bytes;
            room = s.inbound.room - (length h.bytes + 4);
          };
        },
      )
  unfolding give_up
  answers e s h room =
      rw (write-sendable env.results (jump_error (hop_error env peer e)) h s.inbound room) refl

  -- If all ten attempts fail, each but the last is followed by a wait, 22.5 seconds together, and
  -- then the requester is sent an error that names the hop and gives the last attempt's reason, the
  -- call ends with that same message as its error, and nothing else changes. The answer has to fit a
  -- frame and the requester's stream to carry it.
  pub open_outbound-exhausted :
      (e : Text) (s : Session) (h : IsSendable env.results (jump_error (hop_error env peer e)))
      → length h.bytes + 4 ≤ s.inbound.room
      → AllFail env peer protocol 0 9
      → env.opens peer protocol 9 ≡ err e
      → (open_outbound env peer protocol 10 0 s ≡ (
        err (not_connected (hop_error env peer e)),
        record s {
          inbound = record s.inbound {
            outgoing = s.inbound.outgoing ++ framed h.bytes;
            room = s.inbound.room - (length h.bytes + 4);
          };
          actions = s.actions ++ (failures peer protocol 0 9 ++ try_open peer protocol ∷ []);
        },
      ))
        × (slept (open_outbound env peer protocol 10 0 s).1.actions ≡ slept s.actions + 22500)
  open_outbound-exhausted e s h room all failed =
      let actions = s.actions ++ (failures peer protocol 0 9 ++ try_open peer protocol ∷ []) in
      let ends =
        open_outbound-give_up e s all failed ∙ answers e (record s { actions = actions }) h room in
      (
        ends,
        ap (λ r. slept r.1.actions) ends
            ∙ slept-append s.actions (failures peer protocol 0 9 ++ try_open peer protocol ∷ []),
      )
