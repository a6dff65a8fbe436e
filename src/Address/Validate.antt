-- ===== src/Address/Validate.antt =====
-- What the relay-address check accepts, and which error it gives.
use sape.Prelude.{
  ◌≡◌, refl, ap, ◌↔◌, ◌⊎◌, inl, inr, Bool, true, false, ◌&&◌, ◌||◌, [], ◌∷◌, ◌++◌, arith,
  if◌then◌else◌, Bool-cases,
}
use sape.Prelude.Result.{ok, err}
use sape.Address.{
  Protocol, p2p, tcp, udp, quic_v1, ip4, ip6, ws, p2p_circuit, other, Multiaddr, missing_peer_id,
  unsupported_transport, Flags, note, flags_of, validate_relay_address,
}

abbrev pub is_p2p : Protocol → Bool
is_p2p (p2p id) = true
is_p2p _ = false

abbrev pub is_tcp : Protocol → Bool
is_tcp (tcp port) = true
is_tcp _ = false

abbrev pub is_udp : Protocol → Bool
is_udp (udp port) = true
is_udp _ = false

abbrev pub is_quic_v1 : Protocol → Bool
is_quic_v1 quic_v1 = true
is_quic_v1 _ = false

-- The protocol stands somewhere in the address.
abbrev pub Holds : (Protocol → Bool) → Multiaddr → Type 0
Holds f addr =
    (front : Multiaddr) × (p : Protocol) × (back : Multiaddr) × (addr ≡ front ++ p ∷ back)
    × (f p ≡ true)

abbrev pub any : (Protocol → Bool) → Multiaddr → Bool
any f [] = false
any f (p ∷ addr) = f p || any f addr

flags_of-any :
    (f : Flags) (addr : Multiaddr)
    → flags_of f addr ≡ record {
      has_p2p = f.has_p2p || any is_p2p addr;
      has_tcp = f.has_tcp || any is_tcp addr;
      has_udp = f.has_udp || any is_udp addr;
      has_quic_v1 = f.has_quic_v1 || any is_quic_v1 addr;
    }
unfolding flags_of note
flags_of-any f [] = ground arith
flags_of-any f (p2p id ∷ addr) = ground (arith, flags_of-any (note f (p2p id)) addr)
flags_of-any f (tcp port ∷ addr) = ground (arith, flags_of-any (note f (tcp port)) addr)
flags_of-any f (udp port ∷ addr) = ground (arith, flags_of-any (note f (udp port)) addr)
flags_of-any f (quic_v1 ∷ addr) = ground (arith, flags_of-any (note f quic_v1) addr)
flags_of-any f (ip4 a ∷ addr) = flags_of-any f addr
flags_of-any f (ip6 a ∷ addr) = flags_of-any f addr
flags_of-any f (ws a ∷ addr) = flags_of-any f addr
flags_of-any f (p2p_circuit ∷ addr) = flags_of-any f addr
flags_of-any f (other a ∷ addr) = flags_of-any f addr

any_sound : (f : Protocol → Bool) (addr : Multiaddr) → any f addr ≡ true → Holds f addr
any_sound f [] h = cc
any_sound f (p ∷ addr) h = elim (Bool-cases (f p)) [
  | inl here ↦ ([], p, addr, refl, here)
  | inr later ↦
      let (front, q, back, e, fq) = any_sound f addr (ground arith) in
      (p ∷ front, q, back, ap (λ t. p ∷ t) e, fq)
]

any_middle :
    (f : Protocol → Bool) (front : Multiaddr) (p : Protocol) (back : Multiaddr)
    → f p ≡ true
    → any f (front ++ p ∷ back) ≡ true
any_middle f [] p back h = rw h
any_middle f (q ∷ front) p back h = ground (arith, any_middle f front p back h)

pub any_complete : (f : Protocol → Bool) (addr : Multiaddr) → Holds f addr → any f addr ≡ true
any_complete f addr (front, p, back, e, h) = rw e (any_middle f front p back h)

pub validate_relay_address_lem :
    (addr : Multiaddr)
    → validate_relay_address addr ≡ (
        if any is_p2p addr
        then (if any is_tcp addr || (any is_udp addr && any is_quic_v1 addr)
            then ok tt
            else err unsupported_transport)
        else err missing_peer_id)
unfolding validate_relay_address
validate_relay_address_lem addr = rw flags_of-any (ground arith)

abbrev pub HasTransport : Multiaddr → Type 0
HasTransport addr = Holds is_tcp addr ⊎ (Holds is_udp addr × Holds is_quic_v1 addr)

abbrev transports : Multiaddr → Bool
transports addr = any is_tcp addr || (any is_udp addr && any is_quic_v1 addr)

transports_sound : (addr : Multiaddr) → transports addr ≡ true → HasTransport addr
transports_sound addr h = elim (Bool-cases (any is_tcp addr)) [
  | inl t ↦ inl (any_sound is_tcp addr t)
  | inr no_tcp ↦
      inr (any_sound is_udp addr (ground arith), any_sound is_quic_v1 addr (ground arith))
]

transports_complete : (addr : Multiaddr) → HasTransport addr → transports addr ≡ true
transports_complete addr (inl t) = rw (any_complete is_tcp addr t)
transports_complete addr (inr (u, q)) =
    ground (arith, any_complete is_udp addr u, any_complete is_quic_v1 addr q)

-- A relay address is accepted exactly when it names a peer and a transport: TCP, or UDP with QUIC
-- version 1, wherever they stand. The error is the missing peer id exactly when it names no peer,
-- whatever its transports, and the unsupported transport exactly when it names a peer and no
-- transport. It gives no other error.
pub validate_relay_address_iff :
    (addr : Multiaddr)
    → ((validate_relay_address addr ≡ ok tt) ↔ (Holds is_p2p addr × HasTransport addr))
      × ((validate_relay_address addr ≡ err missing_peer_id) ↔ (¬ Holds is_p2p addr))
      × ((validate_relay_address addr ≡ err unsupported_transport)
          ↔ (Holds is_p2p addr × (¬ HasTransport addr)))
validate_relay_address_iff addr = elim (Bool-cases (any is_p2p addr)) [
  | inr no_peer ↦
      let e : validate_relay_address addr ≡ err missing_peer_id =
        rw (validate_relay_address_lem addr) (ground arith) in
      let lacks : ¬ Holds is_p2p addr = λ h. cc (any_complete is_p2p addr h, no_peer) in
      (
        ((λ h. cc), (λ h. absurd (lacks h.0))),
        ((λ h. lacks), (λ h. e)),
        ((λ h. cc), (λ h. absurd (lacks h.0))),
      )
  | inl peer ↦ elim (Bool-cases (transports addr)) [
    | inl t ↦
        let e : validate_relay_address addr ≡ ok tt =
          rw (validate_relay_address_lem addr) (ground arith) in
        let named = any_sound is_p2p addr peer in
        let carried = transports_sound addr t in
        (
          ((λ h. (named, carried)), (λ h. e)),
          ((λ h. cc), (λ h. absurd (h named))),
          ((λ h. cc), (λ h. absurd (h.1 carried))),
        )
    | inr no_transport ↦
        let e : validate_relay_address addr ≡ err unsupported_transport =
          rw (validate_relay_address_lem addr) (ground arith) in
        let named = any_sound is_p2p addr peer in
        let lacks : ¬ HasTransport addr = λ h. cc (transports_complete addr h, no_transport) in
        (
          ((λ h. cc), (λ h. absurd (lacks h.1))),
          ((λ h. cc), (λ h. absurd (h named))),
          ((λ h. (named, lacks)), (λ h. e)),
        )
  ]
]
