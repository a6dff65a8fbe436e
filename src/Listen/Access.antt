-- ===== src/Listen/Access.antt =====
-- Who may use a listener.
use sape.Prelude.{
  ◌≡◌, refl, ap, ◌≢◌, ◌↔◌, ◌⊎◌, inl, inr, Bool, true, false, not, ◌&&◌, List, [], ◌∷◌, arith,
  Bool-cases,
}
use sape.Prelude.Result.{Result, ok, err}
use sape.Prelude.Exec.{match_result}
use sape.Text.{text_eq, text_eq_iff}
use sape.Address.{PeerId}
use sape.Wire.{Stream, Codec, IoError}
use sape.Tunnel.{TunnelRequest, netcat, local_forward, reverse_forward, read_tunnel_request}
use sape.Forward.{Machine, rejected, read_failed, start_reverse_listener}
use sape.Listen.{contains_peer, no_peers, serve_request, handle_tunnel}

-- The peer stands in the list.
abbrev pub IsListed : List PeerId → PeerId → Type 0
IsListed [] peer = ⊥
IsListed (p ∷ ps) peer = (p ≡ peer) ⊎ IsListed ps peer

contains_peer_iff :
    (ps : List PeerId) (peer : PeerId) → (contains_peer ps peer ≡ true) ↔ IsListed ps peer
contains_peer_iff [] peer = ((λ h. cc), (λ h. absurd h))
contains_peer_iff (p ∷ ps) peer = (
  (λ h. elim (Bool-cases (text_eq p peer)) [
    | inl same ↦ inl ((text_eq_iff p peer).0 same)
    | inr other ↦ inr ((contains_peer_iff ps peer).0 (ground arith))
  ]),
  (λ h. elim h [
    | inl same ↦ rw ((text_eq_iff p peer).1 same)
    | inr listed ↦ ground (arith, (contains_peer_iff ps peer).1 listed)
  ]),
)

-- The listener turns the peer away.
abbrev pub IsRefused : List PeerId → PeerId → Type 0
IsRefused allowed peer = (allowed ≢ []) × (¬ IsListed allowed peer)

abbrev pub turns_away : List PeerId → PeerId → Bool
turns_away allowed peer = not (no_peers allowed) && not (contains_peer allowed peer)

no_peers_iff : (ps : List PeerId) → (no_peers ps ≡ true) ↔ (ps ≡ [])
no_peers_iff [] = ((λ h. refl), (λ h. refl))
no_peers_iff (p ∷ ps) = ((λ h. cc), (λ h. cc))

turns_away_iff :
    (allowed : List PeerId) (peer : PeerId)
    → (turns_away allowed peer ≡ true) ↔ IsRefused allowed peer
turns_away_iff allowed peer = (
  (λ h. (
    (λ e. cc ((no_peers_iff allowed).1 e, away-set h)),
    (λ listed. cc ((contains_peer_iff allowed peer).1 listed, away-unlisted h)),
  )),
  (λ r. elim (Bool-cases (no_peers allowed)) [
    | inl empty ↦ absurd (r.0 ((no_peers_iff allowed).0 empty))
    | inr some_set ↦ elim (Bool-cases (contains_peer allowed peer)) [
      | inl listed ↦ absurd (r.1 ((contains_peer_iff allowed peer).0 listed))
      | inr unlisted ↦ rw (some_set, unlisted)
    ]
  ]),
)
  where
    away-set : turns_away allowed peer ≡ true → no_peers allowed ≡ false
    away-set h = ground arith

    away-unlisted : turns_away allowed peer ≡ true → contains_peer allowed peer ≡ false
    away-unlisted h = ground arith

serve_request-ne-rejected :
    (machine : Machine) (peer : PeerId) (request : TunnelRequest) (s : Stream)
    → (serve_request machine peer request s).0 ≢ rejected peer ∷ []
unfolding serve_request start_reverse_listener
serve_request-ne-rejected machine peer netcat s = λ e. cc
serve_request-ne-rejected machine peer (local_forward target) s = λ e. ground arith
serve_request-ne-rejected machine peer (reverse_forward port target gateway) s = λ e. ground arith

module _ (codec : Codec TunnelRequest) (machine : Machine) (allowed : List PeerId)
    (peer : PeerId) where
  refused :
      (s : Stream)
      → turns_away allowed peer ≡ true
      → handle_tunnel codec machine allowed peer s ≡ (rejected peer ∷ [], s)
  unfolding handle_tunnel
  refused s h = rw h

  pub admitted :
      (s : Stream)
      → turns_away allowed peer ≡ false
      → handle_tunnel codec machine allowed peer s
        ≡ match_result
            (read_tunnel_request codec s)
            (λ request s'. serve_request machine peer request s')
            (λ e s'. (read_failed e ∷ [], s'))
  unfolding handle_tunnel
  admitted s h = rw h

  outcome-ne-rejected :
      (r : Result IoError TunnelRequest × Stream)
      → (match_result r
          (λ request s'. serve_request machine peer request s')
          (λ e s'. (read_failed e ∷ [], s'))).0
        ≢ rejected peer ∷ []
  outcome-ne-rejected (ok request, s) = serve_request-ne-rejected machine peer request s
  outcome-ne-rejected (err e, s) = λ same. cc

  not_admitted :
      (s : Stream)
      → turns_away allowed peer ≡ false
      → (handle_tunnel codec machine allowed peer s).0 ≢ rejected peer ∷ []
  not_admitted s h e = outcome-ne-rejected (read_tunnel_request codec s) (rw (admitted s h) at e)

  -- A peer is turned away exactly when the list of allowed peers is not empty and does not name
  -- it. Then nothing of its stream is read, nothing is written to it, and its request has no
  -- effect but the refusal that is logged.
  pub handle_tunnel-rejected_iff :
      (s : Stream)
      → (handle_tunnel codec machine allowed peer s ≡ (rejected peer ∷ [], s))
        ↔ IsRefused allowed peer
  handle_tunnel-rejected_iff s = (
    (λ e. elim (Bool-cases (turns_away allowed peer)) [
      | inl away ↦ (turns_away_iff allowed peer).0 away
      | inr stays ↦ absurd (not_admitted s stays (ap (λ r. r.0) e))
    ]),
    (λ r. refused s ((turns_away_iff allowed peer).1 r)),
  )

  pub admitted_of_not_refused : (¬ IsRefused allowed peer) → turns_away allowed peer ≡ false
  admitted_of_not_refused h = elim (Bool-cases (turns_away allowed peer)) [
    | inl away ↦ absurd (h ((turns_away_iff allowed peer).0 away))
    | inr stays ↦ stays
  ]
