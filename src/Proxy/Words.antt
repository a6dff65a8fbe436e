-- ===== src/Proxy/Words.antt =====
-- The words of an HTTP request line that asks for a target, for src/forward/socks5.rs.
use sape.Prelude.{◌≡◌, refl, ◌↔◌, inl, inr, none, some, List, [], ◌∷◌, Bool-cases, Option-cases}
use sape.Text.{Text, codes, text_eq, text_eq_iff}
use sape.Proxy.{connect_target}

-- The method CONNECT, the target, a version, and perhaps more.
abbrev pub AskFor : List Text → Text → Type 0
AskFor words target =
    (version : Text) × ((more : List Text) × (words ≡ codes "CONNECT" ∷ target ∷ version ∷ more))

connect_target_sound :
    (words : List Text) (target : Text) → connect_target words ≡ some target → AskFor words target
connect_target_sound [] target h = cc
connect_target_sound (a ∷ []) target h = cc
connect_target_sound (a ∷ b ∷ []) target h = cc
connect_target_sound (method ∷ t ∷ version ∷ more) target h =
    elim (Bool-cases (text_eq method (codes "CONNECT"))) [
      | inl same ↦
          let method_is = (text_eq_iff method (codes "CONNECT")).0 same in
          let target_is : t ≡ target = of_some (rw same at h) in
          (version, (more, rw (method_is, target_is) refl))
      | inr other ↦ cc (rw other at h)
    ]
  where
    of_some : {a b : Text} → some a ≡ some b → a ≡ b
    of_some h = cc

pub connect_target_iff :
    (words : List Text) (target : Text) → (connect_target words ≡ some target) ↔ AskFor words target
connect_target_iff words target =
    (connect_target_sound words target, (λ (version, (more, e)). rw e refl))

pub connect_target-none :
    (words : List Text) → (¬ ((target : Text) × AskFor words target)) → connect_target words ≡ none
connect_target-none words none_asked = elim (Option-cases (connect_target words)) [
  | inl nothing ↦ nothing
  | inr (target, e) ↦ absurd (none_asked (target, connect_target_sound words target e))
]
