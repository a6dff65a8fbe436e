-- ===== src/Listen/Setup/Tests.antt =====
-- A listener that registers a generated code at a relay.
use sape.Prelude.{refl, some, [], ◌∷◌}
use sape.Text.{codes}
use sape.Address.{PeerId}
use sape.Libp2p.Sample.{sample-IsFaithful}
use sape.Listen.Setup.Meets.{Meets, set_up-Meets}
use sape.Listen.Setup.Sample.{behaviour, opt, start, relay, ready, set_up-ready}

abbrev local : PeerId
local = 9 ∷ []

set_up-Meets_example :
    Meets behaviour sample-IsFaithful local
      (some relay)
      (codes "7-acid-acorn")
      (ready local (codes "7-acid-acorn"))
set_up-Meets_example =
    set_up-Meets behaviour sample-IsFaithful opt local (codes "7-acid-acorn") start
      (ready local (codes "7-acid-acorn")) (refl, (refl, tt)) refl refl
      (set_up-ready local (codes "7-acid-acorn"))
