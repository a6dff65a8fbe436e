-- ===== src/Dial/Forever.antt =====
-- When resolving a dialler's target does not come to an end.
use sape.Prelude.Result.{Result}
use sape.Text.{Text}
use sape.Swarm.{Swarm}
