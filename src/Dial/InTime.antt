-- ===== src/Dial/InTime.antt =====
-- How long a dialler takes to resolve its target.
use sape.Prelude.{◌+◌, Option}
use sape.Prelude.Result.{Result}
use sape.Text.{Text}
use sape.Address.{Multiaddr}
use sape.Target.{DialTarget, mdns, relay_circuit, pairing_code}
use sape.Dial.{Setup, resolve_target}
use sape.Dial.Limits.{By, setup_timeout, circuit-ends, code-ends}

-- No mDNS target, the wait for which has no limit.
abbrev pub IsLimited : DialTarget → Type 0
IsLimited (mdns p) = ⊥
IsLimited (relay_circuit addr) = Unit {0}
IsLimited (pairing_code code) = Unit {0}

-- Whatever the swarm reports, or fails to report, resolving a target that is a circuit address or a
-- pairing code comes to an end, with a peer or an error, within 60 seconds of its start: 30 to get past
-- the relay, and 30 to reach the peer behind it or to find it by its code.
pub resolve_target-ends :
    (accepts : Multiaddr → Result Text (Unit {0})) (namespace_new : Text → Result Text (Unit {0}))
    (target : DialTarget) (relay : Option Multiaddr) (s : Setup)
    → IsLimited target
    → By (s.swarm.now + setup_timeout) (resolve_target accepts namespace_new target relay s)
unfolding resolve_target
resolve_target-ends accepts namespace_new (mdns p) relay s h = absurd h
resolve_target-ends accepts namespace_new (relay_circuit addr) relay s h =
    circuit-ends accepts namespace_new addr s
resolve_target-ends accepts namespace_new (pairing_code code) relay s h =
    code-ends accepts namespace_new relay code s
