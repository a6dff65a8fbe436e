-- ===== src/Address/Circuit.antt =====
-- Circuit addresses: what the split returns, and the listener's advertised address.
use sape.Prelude.{
  ◌≡◌, refl, sym, ap, ◌∙◌, ◌↔◌, ◌⊎◌, inl, inr, Bool, true, false, Option, none, some, [], ◌∷◌, ◌++◌,
  append-nil, append_assoc, arith, Option-cases, All,
}
use sape.Address.Validate.{any, is_p2p, any_complete, validate_relay_address_iff}
use sape.Prelude.Result.{Result-cases, Result, ok, err, ◌>>=◌}
use sape.Address.{
  PeerId, Protocol, p2p, tcp, p2p_circuit, Multiaddr, missing_circuit, missing_listener_peer_id,
  AddressError, before, after, split_circuit, relay_base_from_circuit_address,
  validate_relay_address, peer_id_from_multiaddr,
}

abbrev pub is_circuit : Protocol → Bool
is_circuit p2p_circuit = true
is_circuit _ = false

abbrev pub IsCircuitFree : Multiaddr → Type 0
IsCircuitFree = All (λ p. is_circuit p ≡ false)

-- The last peer id of the address.
abbrev pub last_peer : Option PeerId → Multiaddr → Option PeerId
last_peer found [] = found
last_peer found (p2p id ∷ addr) = last_peer (some id) addr
last_peer found (p ∷ addr) = last_peer found addr

split_circuit-free :
    (base addr rest : Multiaddr)
    → IsCircuitFree addr
    → split_circuit
        (record { relay_base = base; seen_circuit = false; remote_peer = none })
        (addr ++ rest)
      ≡ split_circuit
          (record { relay_base = base ++ addr; seen_circuit = false; remote_peer = none })
          rest
unfolding split_circuit before
split_circuit-free base [] rest h = rw append-nil
split_circuit-free base (p2p_circuit ∷ addr) rest (hp, h) = cc
split_circuit-free base (tcp a ∷ addr) rest (hp, h) =
    rw (split_circuit-free (base ++ tcp a ∷ []) addr rest h) (rw append_assoc)
split_circuit-free base (p ∷ addr) rest (hp, h) =
    rw (split_circuit-free (base ++ p ∷ []) addr rest h) (rw append_assoc)

split_circuit-after :
    (base addr : Multiaddr) (found : Option PeerId)
    → split_circuit (record { relay_base = base; seen_circuit = true; remote_peer = found }) addr
      ≡ record { relay_base = base; seen_circuit = true; remote_peer = last_peer found addr }
unfolding split_circuit after
split_circuit-after base [] found = refl
split_circuit-after base (p2p id ∷ addr) found = split_circuit-after base addr (some id)
split_circuit-after base (tcp a ∷ addr) found = split_circuit-after base addr found
split_circuit-after base (p ∷ addr) found = split_circuit-after base addr found

-- What the function returns for an address with a circuit marker, by its part before the first
-- marker and its part behind it.
abbrev pub resolved : Multiaddr → Multiaddr → Result AddressError (Multiaddr × PeerId)
resolved base tail = elim (last_peer none tail) [
  | none ↦ err missing_listener_peer_id
  | some listener ↦ validate_relay_address base >>= λ _. ok (base, listener)
]

pub resolve-marker :
    (base tail : Multiaddr)
    → IsCircuitFree base
    → relay_base_from_circuit_address (base ++ p2p_circuit ∷ tail) ≡ resolved base tail
unfolding relay_base_from_circuit_address
resolve-marker base tail h =
    rw (split_circuit-free [] base (p2p_circuit ∷ tail) h)
      (rw (split_circuit-after base tail none) (ground arith))

pub resolve-free :
    (addr : Multiaddr)
    → IsCircuitFree addr
    → relay_base_from_circuit_address addr ≡ err missing_circuit
unfolding relay_base_from_circuit_address
resolve-free addr h =
    let e = rw (append-nil addr) at (split_circuit-free [] addr [] h) in ground (arith, e)

abbrev HasMarker : Multiaddr → Type 0
HasMarker addr =
    (base : Multiaddr) × (tail : Multiaddr) × IsCircuitFree base
    × (addr ≡ base ++ p2p_circuit ∷ tail)

marker-push :
    (p : Protocol) (addr : Multiaddr) → is_circuit p ≡ false → HasMarker addr → HasMarker (p ∷ addr)
marker-push p addr hp (base, tail, free, e) = (p ∷ base, tail, (hp, free), ap (λ t. p ∷ t) e)

-- The first marker of an address, if it has one.
marker-cases : (addr : Multiaddr) → IsCircuitFree addr ⊎ HasMarker addr
marker-cases [] = inl tt
marker-cases (p2p_circuit ∷ addr) = inr ([], addr, tt, refl)
marker-cases (tcp a ∷ addr) = elim (marker-cases addr) [
  | inl free ↦ inl (refl, free)
  | inr m ↦ inr (marker-push (tcp a) addr refl m)
]
marker-cases (p ∷ addr) = elim (marker-cases addr) [
  | inl free ↦ inl (refl, free)
  | inr m ↦ inr (marker-push p addr refl m)
]

-- `addr` is `base`, the first circuit marker, and protocols whose last peer id is `listener`.
abbrev pub IsCircuitTo : Multiaddr → Multiaddr → PeerId → Type 0
IsCircuitTo addr base listener =
    (tail : Multiaddr) × (addr ≡ base ++ p2p_circuit ∷ tail)
    × IsCircuitFree base
    × (last_peer none tail ≡ some listener)
    × (validate_relay_address base ≡ ok tt)

resolved-ok :
    (base tail base' : Multiaddr) (listener : PeerId)
    → resolved base tail ≡ ok (base', listener)
    → (base ≡ base') × (last_peer none tail ≡ some listener) × (validate_relay_address base ≡ ok tt)
resolved-ok base tail base' listener h = elim (Option-cases (last_peer none tail)) [
  | inl missing ↦ absurd (ground arith)
  | inr (found, e) ↦ elim (Result-cases (validate_relay_address base)) [
    | inl (u, v) ↦ (ground arith, ground arith, ground arith)
    | inr (f, v) ↦ absurd (ground arith)
  ]
]

circuit_sound :
    (addr base : Multiaddr) (listener : PeerId)
    → relay_base_from_circuit_address addr ≡ ok (base, listener)
    → IsCircuitTo addr base listener
circuit_sound addr base listener h = elim (marker-cases addr) [
  | inl free ↦ cc (resolve-free addr free)
  | inr (front, tail, free, e) ↦
      let (same, last, valid) =
        resolved-ok front tail base listener (sym (resolve-marker front tail free) ∙ rw e at h) in
      (tail, rw (← same) e, rw same at free, last, rw same at valid)
]

-- An address resolves to a relay's address and a listener exactly when it is that relay's address,
-- which holds no circuit marker and passes the relay-address check, then a circuit marker, then
-- protocols among which the listener's is the last peer id.
pub relay_base_from_circuit_address_iff :
    (addr base : Multiaddr) (listener : PeerId)
    → (relay_base_from_circuit_address addr ≡ ok (base, listener)) ↔ IsCircuitTo addr base listener
relay_base_from_circuit_address_iff addr base listener = (
  circuit_sound addr base listener,
  (λ (tail, e, free, last, valid).
      rw e (rw (resolve-marker base tail free) (ground (arith, last, valid)))),
)

-- The address that `run_listen` shows for dialling through a relay.
abbrev pub advertised : Multiaddr → PeerId → Multiaddr
advertised relay listener = (relay ++ p2p_circuit ∷ []) ++ p2p listener ∷ []

-- What a listener advertises, a dialler resolves to the same relay address and the same listener,
-- if the relay address passes the check that the listener makes and holds no circuit marker.
pub relay_base_from_circuit_address-advertised :
    (relay : Multiaddr) (listener : PeerId)
    → IsCircuitFree relay
    → validate_relay_address relay ≡ ok tt
    → relay_base_from_circuit_address (advertised relay listener) ≡ ok (relay, listener)
relay_base_from_circuit_address-advertised relay listener free valid =
    rw append_assoc (rw (resolve-marker relay (p2p listener ∷ []) free) (ground (arith, valid)))

peer_id-append :
    (base rest : Multiaddr) (id : PeerId)
    → peer_id_from_multiaddr base ≡ some id
    → peer_id_from_multiaddr (base ++ rest) ≡ some id
unfolding peer_id_from_multiaddr
peer_id-append [] rest id h = ground arith
peer_id-append (p2p x ∷ base) rest id h = h
peer_id-append (tcp a ∷ base) rest id h = peer_id-append base rest id h
peer_id-append (p ∷ base) rest id h = peer_id-append base rest id h

peer_id_of_any :
    (addr : Multiaddr)
    → any is_p2p addr ≡ true
    → (id : PeerId) × (peer_id_from_multiaddr addr ≡ some id)
unfolding peer_id_from_multiaddr
peer_id_of_any [] h = cc
peer_id_of_any (p2p x ∷ addr) h = (x, refl)
peer_id_of_any (tcp a ∷ addr) h = peer_id_of_any addr h
peer_id_of_any (p ∷ addr) h = peer_id_of_any addr h

-- In a circuit address that resolves, the first peer id is one of the relay's address: it is the
-- first peer id of the relay's address, which has one, and the listener's is not looked at.
pub peer_id_from_multiaddr-circuit :
    (addr base : Multiaddr) (listener : PeerId)
    → relay_base_from_circuit_address addr ≡ ok (base, listener)
    → (relay : PeerId) × (peer_id_from_multiaddr base ≡ some relay)
      × (peer_id_from_multiaddr addr ≡ some relay)
peer_id_from_multiaddr-circuit addr base listener h =
    let (tail, e, free, last, valid) = circuit_sound addr base listener h in
    let (id, first) =
      peer_id_of_any base
        (any_complete is_p2p base ((validate_relay_address_iff base).0.0 valid).0) in
    (id, first, rw e (peer_id-append base (p2p_circuit ∷ tail) id first))
