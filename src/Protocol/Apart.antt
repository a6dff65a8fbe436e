-- ===== src/Protocol/Apart.antt =====
-- Protocol names of different namespaces and of different purposes.
use sape.Prelude.{
  ℕ, ◌≤◌, ◌≡◌, refl, sym, ap, ◌∙◌, ◌≢◌, ◌↔◌, inl, inr, false, Option, none, some, [], ◌∷◌, ◌++◌,
  arith, ◌==◌, Bool-cases, All,
}
use sape.Prelude.Result.{ok}
use sape.Text.{Text, has_char, Lacks}
use sape.Text.Split.{split_once, split_once-append}
use sape.Protocol.{
  unprintable, any_unprintable, check_namespace, tunnel_protocol, jump_protocol, tunnel_tail,
  jump_tail,
}

-- A printable ASCII character other than the slash.
abbrev pub IsPlain : ℕ → Type 0
IsPlain c = (c ≢ b'/') × ((32 ≤ c) × (c ≤ 126))

abbrev pub IsNamespace : Text → Type 0
IsNamespace s = (s ≢ []) × All IsPlain s

IsPlain-iff : (c : ℕ) → (((c == b'/') ≡ false) × (unprintable c ≡ false)) ↔ IsPlain c
IsPlain-iff c = ground arith

All-IsPlain_iff :
    (s : Text) → ((has_char b'/' s ≡ false) × (any_unprintable s ≡ false)) ↔ All IsPlain s
All-IsPlain_iff [] = ((λ h. tt), (λ h. (refl, refl)))
All-IsPlain_iff (c ∷ s) =
    let head = IsPlain-iff c in
    let tail = All-IsPlain_iff s in
    (
      (λ h. (
        head.0 (ground (arith, h.0), ground (arith, h.1)),
        tail.0 (ground (arith, h.0), ground (arith, h.1)),
      )),
      (λ h.
          let (slash, printable) = head.1 h.0 in
          let (slashes, printables) = tail.1 h.1 in
          (rw (slash, slashes), rw (printable, printables))),
    )

-- A namespace is accepted exactly when it is not empty and each of its characters is printable ASCII
-- and no slash.
pub check_namespace_iff : (s : Text) → (check_namespace s ≡ ok tt) ↔ IsNamespace s
unfolding check_namespace
check_namespace_iff [] = ((λ h. cc), (λ h. absurd (h.0 refl)))
check_namespace_iff (c ∷ s) = (
  (λ h. elim (Bool-cases (has_char b'/' (c ∷ s))) [
    | inl slash ↦ cc (rw slash at h)
    | inr none_there ↦ elim (Bool-cases (any_unprintable (c ∷ s))) [
      | inl bad ↦ cc (rw (none_there, bad) at h)
      | inr good ↦ ((λ e. cc), (All-IsPlain_iff (c ∷ s)).0 (none_there, good))
    ]
  ]),
  (λ h.
      let (slashes, printables) = (All-IsPlain_iff (c ∷ s)).1 h.1 in rw (slashes, printables) refl),
)

plain-Lacks : (s : Text) → All IsPlain s → Lacks b'/' s
plain-Lacks [] h = tt
plain-Lacks (c ∷ s) (h, hs) = (((IsPlain-iff c).1 h).0, plain-Lacks s hs)

-- What stands between the first two slashes of a name, and what stands behind them.
abbrev parts : Text → Option (Text × Text)
parts [] = none
parts (c ∷ s) = split_once b'/' s

pub same_parts :
    (m n s t : Text)
    → All IsPlain m
    → All IsPlain n
    → b'/' ∷ (m ++ b'/' ∷ s) ≡ b'/' ∷ (n ++ b'/' ∷ t)
    → (m ≡ n) × (s ≡ t)
same_parts m n s t hm hn e =
    let same =
      sym (split_once-append b'/' m s (plain-Lacks m hm))
      ∙ ap parts e
      ∙ split_once-append b'/' n t (plain-Lacks n hn) in
    (first same, second same)
  where
    first : {a b c d : Text} → ◌≡◌ {A = Option (Text × Text)} (some (a, b)) (some (c, d)) → a ≡ c
    first h = cc

    second : {a b c d : Text} → ◌≡◌ {A = Option (Text × Text)} (some (a, b)) (some (c, d)) → b ≡ d
    second h = cc

-- Peers that were started with different namespaces share no protocol, and no tunnel protocol is a
-- jump protocol, if the namespaces passed the check.
pub protocols_apart :
    (m n : Text)
    → check_namespace m ≡ ok tt
    → check_namespace n ≡ ok tt
    → ((tunnel_protocol m ≡ tunnel_protocol n) ↔ (m ≡ n))
      × (((jump_protocol m ≡ jump_protocol n) ↔ (m ≡ n)) × (tunnel_protocol m ≢ jump_protocol n))
unfolding tunnel_protocol jump_protocol
protocols_apart m n hm hn =
    let pm = ((check_namespace_iff m).0 hm).1 in
    let pn = ((check_namespace_iff n).0 hn).1 in
    (
      ((λ e. (same_parts m n tunnel_tail tunnel_tail pm pn e).0), (λ e. ap tunnel_protocol e)),
      (
        ((λ e. (same_parts m n jump_tail jump_tail pm pn e).0), (λ e. ap jump_protocol e)),
        (λ e. cc ((same_parts m n tunnel_tail jump_tail pm pn e).1)),
      ),
    )
