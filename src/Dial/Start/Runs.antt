-- ===== src/Dial/Start/Runs.antt =====
-- When a dialler gets as far as a tunnel.
use sape.Prelude.Result.{Result}
use sape.Text.{Text}
use sape.Dial.Start.{Outcome, running}

-- What comes of a run is no tunnel to a peer.
abbrev NoTunnel : Outcome → Type 0
NoTunnel (running peer run) = ⊥
NoTunnel o = Unit
