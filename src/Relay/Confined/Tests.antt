-- ===== src/Relay/Confined/Tests.antt =====
-- A request that tries a busy hop ten times.
use sape.Prelude.{◌≡◌, ◌⊎◌, []}
use sape.Relay.{handle_jump_request}
use sape.Relay.Chain.Sample.{net, relay, second_bytes}
use sape.Relay.Chain.{Relay, around}
use sape.Prelude.Result.{err}
use sape.Text.{codes}
use sape.Wire.Frame.{framed}
use sape.Relay.Confined.{IsConfined, handle_jump_request-IsConfined}

abbrev busy : Relay
busy = relay (λ peer protocol n. err (codes "busy")) (framed second_bytes)

handle_jump_request-IsConfined_example :
    ((handle_jump_request (around net busy) busy.session).1.actions ≡ [])
    ⊎ IsConfined
        (around net busy)
        busy.session
        (handle_jump_request (around net busy) busy.session).1
handle_jump_request-IsConfined_example =
    handle_jump_request-IsConfined (around net busy) busy.session
