-- ===== src/Proxy/EndToEnd.antt =====
-- A client of a local proxy, the proxy, and the listener that connects to what the client asks for.
mod Tests
use sape.Prelude.{
  ℕ, zero, suc, ◌-◌, ◌*◌, ◌/◌, ◌%◌, ◌<◌, refl, ◌≢◌, ◌↔◌, ◌⊎◌, inl, inr, Bool, true, false, not,
  ◌&&◌, ◌||◌, Option, [], ◌∷◌, map, append-nil, append_assoc, arith, ltb, leb, ◌==◌, if◌then◌else◌,
  ==_iff, Bool-cases, Option-cases, get_elem?, take, length-append, take-append, All, All-append,
}
use sape.Prelude.Result.{Result, err}
use sape.Text.{Text}
