-- ===== src/Protocol/Tests.antt =====
-- Namespaces and protocol names at concrete texts.
use sape.Prelude.{◌≡◌, refl, ◌↔◌, [], ◌∷◌}
use sape.Prelude.Result.{ok, err}
use sape.Text.{codes}
use sape.Protocol.{
  check_namespace, tunnel_protocol, jump_protocol, relay_identify_protocol,
  client_identify_protocol, empty_namespace, contains_slash, not_printable_ascii,
}
use sape.Protocol.Purposes.{relay_identify, client_identify, protocol_of, protocol_of_iff}

default_names :
    (tunnel_protocol (codes "sape") ≡ codes "/sape/tunnel/1.0.0")
    × (jump_protocol (codes "sape") ≡ codes "/sape/jump/1.0.0")
unfolding tunnel_protocol jump_protocol
default_names = (refl, refl)

accepted : check_namespace (codes "sape") ≡ ok tt
unfolding check_namespace
accepted = refl

accepted_too : check_namespace (codes "mynet") ≡ ok tt
unfolding check_namespace
accepted_too = refl

refused :
    (check_namespace [] ≡ err empty_namespace)
    × ((check_namespace (codes "a/b") ≡ err contains_slash)
        × (check_namespace (9 ∷ []) ≡ err not_printable_ascii))
unfolding check_namespace
refused = (refl, (refl, refl))

protocol_of_iff_example :
    (protocol_of relay_identify (codes "sape") ≡ protocol_of client_identify (codes "mynet"))
    ↔ ((relay_identify ≡ client_identify) × (codes "sape" ≡ codes "mynet"))
protocol_of_iff_example =
    protocol_of_iff relay_identify client_identify (codes "sape") (codes "mynet") accepted
      accepted_too

identify_names :
    (relay_identify_protocol (codes "sape") ≡ codes "/sape-relay/0.1.0")
    × (client_identify_protocol (codes "sape") ≡ codes "/sape-client/0.1.0")
unfolding relay_identify_protocol client_identify_protocol
identify_names = (refl, refl)

custom_namespace : tunnel_protocol (codes "mynet") ≡ codes "/mynet/tunnel/1.0.0"
unfolding tunnel_protocol
custom_namespace = refl
