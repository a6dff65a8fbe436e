-- ===== src/Interactive/Validators.antt =====
-- What passes a validator is read by the parser that follows it.
use mathlib.Core.Path.{subst}
use sape.Text.Split.{split}
use sape.Prelude.{
  ℕ, ◌≤◌, ◌≡◌, refl, sym, ap, ◌∙◌, inl, inr, true, false, some, List, [], ◌∷◌, Bool-cases,
  Option-cases,
}
use sape.Prelude.Result.{Result, ok, Result-cases}
use sape.Text.{Text, is_empty, trim}
use sape.Text.Number.{parse_u16}
use sape.Text.Number.RoundTrip.{parse_unsigned-le}
use sape.Address.{PeerId}
use sape.Libp2p.{TextForms}
use sape.Terminal.{valid, Prompts, IsInquire}
use sape.Terminal.Ensures.{
  Ensures, Ensures-pure, Ensures-bind, Ensures-mono, expect-Ensures, ask-Ensures,
}
use sape.Interactive.{
  required, valid_port, port_of, all_peer_ids, valid_peers, peer_texts, expect_peers, ask_address,
}

nothing : (s : Text) → is_empty s ≡ true → s ≡ []
nothing [] h = refl
nothing (c ∷ s) h = cc

pub required-valid :
    {E A : Type 0} (parse : Text → Result E A) (m n s : Text)
    → required parse m n s ≡ valid
    → (a : A) × (parse (trim s) ≡ ok a)
required-valid parse m n s h = elim (Bool-cases (is_empty (trim s))) [
  | inl empty ↦ cc (rw empty at h)
  | inr there ↦ elim (Result-cases (parse (trim s))) [
    | inl found ↦ found
    | inr (e, bad) ↦ cc (rw (there, bad) at h)
  ]
]

port_read :
    (s : Text)
    → valid_port s ≡ valid
    → is_empty (trim s) ≡ false
    → (n : ℕ) × (parse_u16 (trim s) ≡ some n)
port_read s h there = elim (Option-cases (parse_u16 (trim s))) [
  | inl bad ↦ cc (rw (there, bad) at h)
  | inr found ↦ found
]

module _ {T : Type 0} where
  pub port_of-Ensures :
      (default : ℕ) (s : Text)
      → default ≤ 65535
      → valid_port s ≡ valid
      → Ensures {T = T} (λ n. n ≤ 65535) (port_of default s)
  port_of-Ensures default s small h = elim (Bool-cases (is_empty (trim s))) [
    | inl empty ↦ rw empty (Ensures-pure (λ n. n ≤ 65535) default small)
    | inr there ↦
        let (n, read) = port_read s h there in
        let le = parse_unsigned-le 65535 (trim s) n read in
        rw (there, read) (Ensures-pure (λ n. n ≤ 65535) n le)
  ]

-- The peer ids that the texts are read as.
abbrev pub ReadPeers : TextForms → List Text → List PeerId → Type 0
ReadPeers forms [] [] = Unit {0}
ReadPeers forms [] (id ∷ ids) = ⊥
ReadPeers forms (p ∷ ps) [] = ⊥
ReadPeers forms (p ∷ ps) (id ∷ ids) = (forms.peer_id_from_str p ≡ ok id) × ReadPeers forms ps ids

module _ (forms : TextForms) {T : Type 0} where
  expect_peers-all :
      (ps : List Text)
      → all_peer_ids forms ps ≡ valid
      → Ensures {T = T} (ReadPeers forms ps) (expect_peers forms ps)
  expect_peers-all [] h = Ensures-pure (ReadPeers forms []) [] tt
  expect_peers-all (p ∷ ps) h = elim (Result-cases (forms.peer_id_from_str p)) [
    | inl (id, read) ↦
        Ensures-bind (λ i. i ≡ id) (ReadPeers forms (p ∷ ps)) _ _
          (expect-Ensures (forms.peer_id_from_str p) id read)
          (λ i same.
            Ensures-bind (ReadPeers forms ps) (ReadPeers forms (p ∷ ps)) _ _
              (expect_peers-all ps (rw (read, all_peer_ids) at h))
              (λ ids reads.
                Ensures-pure (ReadPeers forms (p ∷ ps)) (i ∷ ids) (read ∙ ap ok (sym same), reads)))
    | inr (e, bad) ↦ cc (rw (bad, all_peer_ids) at h)
  ]

  pub expect_peers-Ensures :
      (s : Text)
      → valid_peers forms s ≡ valid
      → Ensures {T = T}
          (ReadPeers forms (peer_texts (trim s)))
          (expect_peers forms (peer_texts (trim s)))
  unfolding split trim
  expect_peers-Ensures s h = elim (Bool-cases (is_empty (trim s))) [
    | inl empty ↦
        subst
          (λ v.
            Ensures {T = T} (ReadPeers forms (peer_texts v)) (expect_peers forms (peer_texts v)))
          (sym (nothing (trim s) empty)) (Ensures-pure (ReadPeers forms []) [] tt)
    | inr there ↦ expect_peers-all (peer_texts (trim s)) (rw there at h)
  ]

  pub ask_address-Ensures :
      (prompts : Prompts T) (inquire : IsInquire prompts) (label m n : Text)
      → Ensures (λ addr. Unit {0}) (ask_address forms prompts label m n)
  ask_address-Ensures prompts inquire label m n =
      let validator = required forms.multiaddr_from_str m n in
      Ensures-bind (λ s. validator s ≡ valid) (λ addr. Unit {0}) _ _
        (ask-Ensures prompts inquire label validator)
        (λ s h.
          let (addr, read) = required-valid forms.multiaddr_from_str m n s h in
          Ensures-mono (λ a. a ≡ addr) (λ a. Unit {0}) _
            (expect-Ensures (forms.multiaddr_from_str (trim s)) addr read) (λ a same. tt))
