-- ===== src/Swarm/InTime/Actions.antt =====
-- The time that each action of a client takes.
use sape.Prelude.{◌+◌, false, List, [], ◌∷◌, arith}
use sape.Prelude.Result.{Result, ok, err}
use sape.Prelude.Exec.{match_result}
use sape.Text.{Text}
use sape.Address.{PeerId, Multiaddr}
use sape.Swarm.{
  SwarmError, relay_connect_timed_out, peer_dial_timed_out, rendezvous_timed_out, waits_forever,
  Swarm, deadline, relay_connect_timeout, peer_dial_timeout, dial_answered, dial, wait_for_identify,
  identify_round, connection_round, wait_for_peer_connection_within, wait_for_peer_connection,
  rendezvous_round, address_of, connect_and_identify, dial_all, wait_for_rendezvous_discovery,
}
use sape.Swarm.InTime.{
  EndsBy-le, continue-EndsBy, clock, By, error_of, deadline-IsLimit, within-IsLimit, wait_loop-ends,
}
use sape.Swarm.InTime.Rounds.{identify-FailsKnown, connection-FailsKnown, rendezvous-FailsKnown}

module _ (accepts : Multiaddr → Result Text (Unit {0})) where
  dial_answered-ends :
      (addr : Multiaddr) (r : Result Text (Unit {0})) (w : Swarm)
      → By w.now (dial_answered addr r w)
  dial_answered-ends addr (ok u) w = ((λ h. cc), omega arith)
  dial_answered-ends addr (err e) w = ((λ h. cc (error_of h)), omega arith)

  pub dial-ends : (addr : Multiaddr) (w : Swarm) → By w.now (dial accepts addr w)
  dial-ends addr w = dial_answered-ends addr (accepts addr) w

  pub connect_and_identify-ends :
      (addr : Multiaddr) (w : Swarm)
      → By (w.now + relay_connect_timeout) (connect_and_identify accepts addr w)
  unfolding connect_and_identify
  connect_and_identify-ends addr w =
      let end = w.now + relay_connect_timeout in
      continue-EndsBy clock waits_forever w.now end (dial accepts addr w) _ (dial-ends addr w)
        (omega arith)
        (λ u w' le.
          EndsBy-le clock waits_forever (w'.now + relay_connect_timeout) end (wait_for_identify w')
            (wait_loop-ends identify_round identify-FailsKnown
              (deadline-IsLimit (w'.now + relay_connect_timeout) relay_connect_timed_out (λ h. cc))
              w'.arrivals (false, false) w'.now w'.dialed (omega arith))
            (omega (arith, le)))

  dial_all-ends :
      (peer : PeerId) (addresses : List Multiaddr) (w : Swarm)
      → By w.now (dial_all accepts peer addresses w)
  dial_all-ends peer [] w = ((λ h. cc), omega arith)
  dial_all-ends peer (address ∷ addresses) w =
      going (λ w'. dial_all-ends peer addresses w') (dial accepts (address_of peer address) w)
        (dial-ends (address_of peer address) w)
    where
      going :
          ((w' : Swarm) → By w'.now (dial_all accepts peer addresses w'))
          → (r : Result SwarmError (Unit {0}) × Swarm) → By w.now r
          → By w.now (
              match_result r
                (λ u w'. dial_all accepts peer addresses w')
                (λ e w'. dial_all accepts peer addresses w'))
      going rest (ok u, w') ends =
          EndsBy-le clock waits_forever w'.now w.now (dial_all accepts peer addresses w') (rest w')
            ends.1
      going rest (err e, w') ends =
          EndsBy-le clock waits_forever w'.now w.now (dial_all accepts peer addresses w') (rest w')
            ends.1

  pub wait_for_rendezvous_discovery-ends :
      (point : PeerId) (w : Swarm)
      → By (w.now + peer_dial_timeout) (wait_for_rendezvous_discovery accepts point w)
  unfolding wait_for_rendezvous_discovery
  wait_for_rendezvous_discovery-ends point w =
      let end = w.now + peer_dial_timeout in
      let limit = deadline-IsLimit end rendezvous_timed_out (λ h. cc) in
      continue-EndsBy clock waits_forever end end _ _
        (wait_loop-ends (rendezvous_round point) (rendezvous-FailsKnown point) limit w.arrivals tt
          w.now w.dialed (omega arith))
        (omega arith)
        (λ r w1 le1.
          continue-EndsBy clock waits_forever end end (dial_all accepts r.peer_id r.addresses w1) _
            (EndsBy-le clock waits_forever w1.now end (dial_all accepts r.peer_id r.addresses w1)
              (dial_all-ends r.peer_id r.addresses w1) le1)
            (omega arith)
            (λ u w2 le2.
              continue-EndsBy clock waits_forever end end
                (wait_for_peer_connection_within (deadline end rendezvous_timed_out) r.peer_id w2) _
                (wait_loop-ends (connection_round r.peer_id) (connection-FailsKnown r.peer_id)
                  (within-IsLimit end (w2.now + peer_dial_timeout) rendezvous_timed_out
                    peer_dial_timed_out (λ h. cc) (λ h. cc))
                  w2.arrivals tt w2.now w2.dialed le2)
                (omega arith) (λ v w3 le3. ((λ h. cc), le3))))

pub wait_for_peer_connection-ends :
    (p : PeerId) (w : Swarm) → By (w.now + peer_dial_timeout) (wait_for_peer_connection p w)
unfolding wait_for_peer_connection
wait_for_peer_connection-ends p w =
    wait_loop-ends (connection_round p) (connection-FailsKnown p)
      (deadline-IsLimit (w.now + peer_dial_timeout) peer_dial_timed_out (λ h. cc)) w.arrivals tt
      w.now w.dialed (omega arith)
