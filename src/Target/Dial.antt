-- ===== src/Target/Dial.antt =====
-- How a dial target's text is classified.
use sape.Prelude.{
  ℕ, ◌≡◌, refl, ◌↔◌, inl, inr, true, false, none, some, [], ◌∷◌, ◌++◌, arith, Bool-cases,
  Option-cases,
}
use sape.Prelude.Result.{ok, map_err, ◌>>=◌}
use sape.Text.{Text, codes, strip_prefix, strip_prefix_sound, strip_prefix-append}
use sape.Text.Split.{split}
use sape.Text.Number.{parse_u8, parse_unsigned}
use sape.Text.Number.RoundTrip.{parse_unsigned_head}
use sape.Pairing.{is_pairing_code}
use sape.Pairing.Format.{HasCodeForm, is_pairing_code_iff}
use sape.Address.{PeerId, Multiaddr}
use sape.Libp2p.{TextForms, IsFaithful}
use sape.Target.{
  mdns, relay_circuit, pairing_code, dial_target_from_str, invalid_peer_id, invalid_multiaddr,
}

empty_number : (n : ℕ) → parse_u8 [] ≡ some n → ⊥
unfolding parse_unsigned
empty_number n h = cc

slash-form : (s : Text) → HasCodeForm (b'/' ∷ s) → ⊥
slash-form s ([], w1, w2, shape, (n, e, h), i, j) = empty_number n e
slash-form s (c ∷ number, w1, w2, shape, (n, e, h), i, j) =
    let first : b'/' ≡ c = ground arith in ground (arith, parse_unsigned_head 255 c n number e)

-- A text that starts with a slash is no pairing code.
pub slash-not-code : (s : Text) → is_pairing_code (b'/' ∷ s) ≡ false
slash-not-code s = elim (Bool-cases (is_pairing_code (b'/' ∷ s))) [
  | inr h ↦ h
  | inl h ↦ absurd (slash-form s ((is_pairing_code_iff (b'/' ∷ s)).0 h))
]

empty-not-code : is_pairing_code [] ≡ false
unfolding is_pairing_code split
empty-not-code = refl

abbrev pub mdns_prefix : Text
mdns_prefix = codes "/mdns/"

mdns-not-code : (s r : Text) → strip_prefix mdns_prefix s ≡ some r → is_pairing_code s ≡ false
mdns-not-code s r h =
    rw (strip_prefix_sound mdns_prefix s r h) (slash-not-code (codes "mdns/" ++ r))

not-code : (s : Text) → ¬ HasCodeForm s → is_pairing_code s ≡ false
not-code s h = elim (Bool-cases (is_pairing_code s)) [
  | inl code ↦ absurd (h ((is_pairing_code_iff s).0 code))
  | inr other ↦ other
]

module _ (l : TextForms) where
  of_code : (s : Text) → is_pairing_code s ≡ true → dial_target_from_str l s ≡ ok (pairing_code s)
  unfolding dial_target_from_str
  of_code s h = rw h

  of_mdns :
      (s r : Text)
      → strip_prefix mdns_prefix s ≡ some r
      → dial_target_from_str l s
        ≡ (map_err invalid_peer_id (l.peer_id_from_str r) >>= λ id. ok (mdns id))
  unfolding dial_target_from_str
  of_mdns s r h = rw (mdns-not-code s r h) (ground (arith, h))

  of_address :
      (s : Text)
      → is_pairing_code s ≡ false
      → strip_prefix mdns_prefix s ≡ none
      → dial_target_from_str l s
        ≡ (map_err invalid_multiaddr (l.multiaddr_from_str s) >>= λ a. ok (relay_circuit a))
  unfolding dial_target_from_str
  of_address s h e = rw h (ground (arith, e))

  code_sound :
      (s c : Text) → dial_target_from_str l s ≡ ok (pairing_code c) → HasCodeForm s × (c ≡ s)
  code_sound s c h = elim (Bool-cases (is_pairing_code s)) [
    | inl code ↦ ((is_pairing_code_iff s).0 code, cc (of_code s code))
    | inr other ↦ elim (Option-cases (strip_prefix mdns_prefix s)) [
      | inl plain ↦ absurd (ground (arith, of_address s other plain))
      | inr (r, e) ↦ absurd (ground (arith, of_mdns s r e))
    ]
  ]

  mdns_sound :
      (s : Text) (id : PeerId)
      → dial_target_from_str l s ≡ ok (mdns id)
      → (r : Text) × (s ≡ mdns_prefix ++ r) × (l.peer_id_from_str r ≡ ok id)
  mdns_sound s id h = elim (Bool-cases (is_pairing_code s)) [
    | inl code ↦ absurd (cc (of_code s code))
    | inr other ↦ elim (Option-cases (strip_prefix mdns_prefix s)) [
      | inl plain ↦ absurd (ground (arith, of_address s other plain))
      | inr (r, e) ↦ (r, strip_prefix_sound mdns_prefix s r e, ground (arith, of_mdns s r e))
    ]
  ]

  address_sound :
      (s : Text) (addr : Multiaddr)
      → dial_target_from_str l s ≡ ok (relay_circuit addr)
      → (¬ HasCodeForm s) × (strip_prefix mdns_prefix s ≡ none) × (l.multiaddr_from_str s ≡ ok addr)
  address_sound s addr h = elim (Bool-cases (is_pairing_code s)) [
    | inl code ↦ absurd (cc (of_code s code))
    | inr other ↦ elim (Option-cases (strip_prefix mdns_prefix s)) [
      | inl plain ↦ (
        (λ form. cc ((is_pairing_code_iff s).1 form, other)),
        plain,
        ground (arith, of_address s other plain),
      )
      | inr (r, e) ↦ absurd (ground (arith, of_mdns s r e))
    ]
  ]

  -- A text is a pairing code target exactly when it has the form of a code, which it keeps whole;
  -- an mDNS target exactly when it is `/mdns/` and a text that is read as the peer id; and an
  -- address exactly when it is neither of the two in form and is read as that address.
  pub dial_target_from_str_iff :
      (s c : Text) (id : PeerId) (addr : Multiaddr)
      → ((dial_target_from_str l s ≡ ok (pairing_code c)) ↔ (HasCodeForm s × (c ≡ s)))
        × ((dial_target_from_str l s ≡ ok (mdns id))
            ↔ ((r : Text) × (s ≡ mdns_prefix ++ r) × (l.peer_id_from_str r ≡ ok id)))
        × ((dial_target_from_str l s ≡ ok (relay_circuit addr)) ↔ (
            (¬ HasCodeForm s)
            × (strip_prefix mdns_prefix s ≡ none)
            × (l.multiaddr_from_str s ≡ ok addr)))
  dial_target_from_str_iff s c id addr = (
    (code_sound s c, (λ (form, e). rw e (of_code s ((is_pairing_code_iff s).1 form)))),
    (
      mdns_sound s id,
      (λ (r, e, read).
          rw e (rw (of_mdns (mdns_prefix ++ r) r (strip_prefix-append mdns_prefix r)) (rw read))),
    ),
    (
      address_sound s addr,
      (λ (other, plain, read). rw (of_address s (not-code s other) plain) (rw read)),
    ),
  )

  -- What the program prints as a dial address is read back as the same target: the listener's
  -- `/mdns/` line, and every printed multiaddress.
  pub dial_target_from_str-to_string :
      IsFaithful l
      → (id : PeerId) (addr : Multiaddr)
      → (dial_target_from_str l (mdns_prefix ++ l.peer_id_to_string id) ≡ ok (mdns id))
        × (dial_target_from_str l (l.multiaddr_to_string addr) ≡ ok (relay_circuit addr))
  dial_target_from_str-to_string f id addr = (
    rw (of_mdns _ _ (strip_prefix-append mdns_prefix (l.peer_id_to_string id)))
        (rw (f.peer_id_round id)),
    rw (of_address _ no_code (f.multiaddr_not_mdns addr)) (rw (f.multiaddr_round addr)),
  )
    where
      no_code : is_pairing_code (l.multiaddr_to_string addr) ≡ false
      no_code = elim (f.multiaddr_head addr) [
        | inl e ↦ rw e empty-not-code
        | inr (s, e) ↦ rw e (slash-not-code s)
      ]
