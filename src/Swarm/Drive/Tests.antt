-- ===== src/Swarm/Drive/Tests.antt =====
-- A session in which a connection closes.
use sape.Prelude.{◌≡◌, refl, List, [], ◌∷◌, length}
use sape.Text.{codes}
use sape.Swarm.Drive.{
  DriveEvent, mdns_found, established, closed, on_mdns, outgoing_error, drive_client_swarm,
  log_mdns_event,
}

abbrev events : List DriveEvent
events =
    established (1 ∷ []) (codes "dialer")
    ∷ on_mdns (mdns_found ((1 ∷ [], []) ∷ (2 ∷ [], []) ∷ []))
    ∷ closed (1 ∷ []) (codes "dialer") (codes "timeout")
    ∷ outgoing_error (codes "none") (codes "refused")
    ∷ []

lines_logged : length (drive_client_swarm events).1 ≡ 5
unfolding drive_client_swarm log_mdns_event
lines_logged = refl
