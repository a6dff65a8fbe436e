-- ===== src/Relay/Server/Requests.antt =====
-- src/relay.rs, run_relay: the tasks of the jump streams that a relay accepts, and how many commands
-- they send to its loop.
use sape.Prelude.{ℕ, ◌+◌, ◌≤◌, ◌≡◌, ap, ◌∙◌, ◌⊎◌, inl, inr, List, [], ◌∷◌, ◌++◌, arith, length, All}
use sape.Prelude.Result.{Result}
use sape.Relay.{Session, Surroundings, RelayError, handle_jump_request}
use sape.Relay.Confined.{IsConfined, handle_jump_request-IsConfined}
use sape.Relay.Confined.Counts.{dials}

-- What a stream that is accepted brings: what surrounds its request, and its session.
abbrev pub Request : Type 0
Request = Surroundings × Session

-- A task for each stream; one that fails is logged, and the others go on.
unfoldable pub accept_jump_streams : List Request → List (Result RelayError (Unit {0}) × Session)
accept_jump_streams [] = []
accept_jump_streams ((env, s) ∷ requests) = handle_jump_request env s ∷ accept_jump_streams requests

abbrev pub commands_sent : List (Result RelayError (Unit {0}) × Session) → ℕ
commands_sent [] = 0
commands_sent ((result, s) ∷ served) = dials s.actions + commands_sent served

abbrev pub IsNew : Request → Type 0
IsNew (env, s) = s.actions ≡ []

one_command :
    (env : Surroundings) (s t : Session)
    → s.actions ≡ []
    → (t.actions ≡ s.actions) ⊎ IsConfined env s t
    → dials t.actions ≤ 1
one_command env s t none_done (inl same) = rw (same, none_done) (omega arith)
one_command env s t none_done (inr c) =
    let only : t.actions ≡ c.done_for.extra =
      c.done_for.grown ∙ ap (λ l. l ++ c.done_for.extra) none_done in
    rw only c.done_for.dials_le

pub accept_jump_streams-dials :
    (requests : List Request)
    → All IsNew requests
    → commands_sent (accept_jump_streams requests) ≤ length requests
unfolding accept_jump_streams
accept_jump_streams-dials [] new = omega arith
accept_jump_streams-dials ((env, s) ∷ requests) (fresh_one, new) = omega (
  arith,
  one_command env s (handle_jump_request env s).1 fresh_one (handle_jump_request-IsConfined env s),
  accept_jump_streams-dials requests new,
)
