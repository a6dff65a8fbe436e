-- ===== src/Protocol/Purposes.antt =====
-- The four protocol names of a namespace, against those of any other.
use sape.Prelude.{
  ℕ, ◌≡◌, refl, sym, ap, ◌∙◌, ◌≢◌, ◌↔◌, [], ◌∷◌, ◌++◌, append_assoc, arith, length, length-append,
  All, All-append,
}
use mathlib.Core.List.{reverse, reverse-append}
use sape.Prelude.Result.{ok}
use sape.Text.{Text, codes}
use sape.Protocol.{
  check_namespace, tunnel_protocol, jump_protocol, relay_identify_protocol,
  client_identify_protocol, tunnel_tail, jump_tail, identify_tail,
}
use sape.Protocol.Apart.{IsPlain, check_namespace_iff, same_parts}

pub data Purpose : Type 0 where
  tunnel jump relay_identify client_identify : Purpose

abbrev pub protocol_of : Purpose → Text → Text
protocol_of tunnel namespace = tunnel_protocol namespace
protocol_of jump namespace = jump_protocol namespace
protocol_of relay_identify namespace = relay_identify_protocol namespace
protocol_of client_identify namespace = client_identify_protocol namespace

-- What stands between the first two slashes.
abbrev front : Purpose → Text → Text
front tunnel namespace = namespace
front jump namespace = namespace
front relay_identify namespace = namespace ++ codes "-relay"
front client_identify namespace = namespace ++ codes "-client"

-- What stands behind the second.
abbrev behind : Purpose → Text
behind tunnel = tunnel_tail
behind jump = jump_tail
behind relay_identify = identify_tail
behind client_identify = identify_tail

protocol_of-parts :
    (p : Purpose) (namespace : Text)
    → protocol_of p namespace ≡ b'/' ∷ (front p namespace ++ b'/' ∷ behind p)
unfolding tunnel_protocol jump_protocol relay_identify_protocol client_identify_protocol
protocol_of-parts tunnel namespace = refl
protocol_of-parts jump namespace = refl
protocol_of-parts relay_identify namespace =
    ap (λ s. b'/' ∷ s) (sym (append_assoc namespace (codes "-relay") (b'/' ∷ identify_tail)))
protocol_of-parts client_identify namespace =
    ap (λ s. b'/' ∷ s) (sym (append_assoc namespace (codes "-client") (b'/' ∷ identify_tail)))

relay-IsPlain : All IsPlain (codes "-relay")
unfolding check_namespace
relay-IsPlain = ((check_namespace_iff (codes "-relay")).0 refl).1

client-IsPlain : All IsPlain (codes "-client")
unfolding check_namespace
client-IsPlain = ((check_namespace_iff (codes "-client")).0 refl).1

front-IsPlain :
    (p : Purpose) (namespace : Text) → All IsPlain namespace → All IsPlain (front p namespace)
front-IsPlain tunnel namespace h = h
front-IsPlain jump namespace h = h
front-IsPlain relay_identify namespace h =
    All-append IsPlain namespace (codes "-relay") h relay-IsPlain
front-IsPlain client_identify namespace h =
    All-append IsPlain namespace (codes "-client") h client-IsPlain

head : {a b : ℕ} {xs ys : Text} → ◌≡◌ {A = Text} (a ∷ xs) (b ∷ ys) → a ≡ b
head h = cc

tail : {a b : ℕ} {xs ys : Text} → ◌≡◌ {A = Text} (a ∷ xs) (b ∷ ys) → xs ≡ ys
tail h = cc

cancel_right : (m n s : Text) → m ++ s ≡ n ++ s → m ≡ n
cancel_right [] [] s h = refl
cancel_right [] (y ∷ n) s h = absurd (omega (arith, ap length h, length-append n s))
cancel_right (x ∷ m) [] s h = absurd (omega (arith, ap length h, length-append m s))
cancel_right (x ∷ m) (y ∷ n) s h = cc (cancel_right m n s (tail h), head h)

suffixes_differ : (m n : Text) → m ++ codes "-relay" ≢ n ++ codes "-client"
suffixes_differ m n h =
    let turned =
      sym (reverse-append m (codes "-relay")) ∙ ap reverse h ∙ reverse-append n (codes "-client") in
    absurd (omega (arith, head turned))

parts_same :
    (p q : Purpose) (m n : Text)
    → All IsPlain m
    → All IsPlain n
    → protocol_of p m ≡ protocol_of q n
    → (front p m ≡ front q n) × (behind p ≡ behind q)
parts_same p q m n hm hn e =
    same_parts (front p m) (front q n) (behind p) (behind q) (front-IsPlain p m hm)
      (front-IsPlain q n hn) (sym (protocol_of-parts p m) ∙ e ∙ protocol_of-parts q n)

-- Purposes and namespaces can be read off what stands between the slashes and behind them.
parts-differ :
    (p q : Purpose) (m n : Text) → front p m ≡ front q n → behind p ≡ behind q → (p ≡ q) × (m ≡ n)
parts-differ tunnel tunnel m n f b = (refl, f)
parts-differ jump jump m n f b = (refl, f)
parts-differ relay_identify relay_identify m n f b = (refl, cancel_right m n (codes "-relay") f)
parts-differ client_identify client_identify m n f b = (refl, cancel_right m n (codes "-client") f)
parts-differ tunnel jump m n f b = absurd (omega (arith, head b))
parts-differ tunnel relay_identify m n f b = absurd (omega (arith, head b))
parts-differ tunnel client_identify m n f b = absurd (omega (arith, head b))
parts-differ jump tunnel m n f b = absurd (omega (arith, head b))
parts-differ jump relay_identify m n f b = absurd (omega (arith, head b))
parts-differ jump client_identify m n f b = absurd (omega (arith, head b))
parts-differ relay_identify tunnel m n f b = absurd (omega (arith, head b))
parts-differ relay_identify jump m n f b = absurd (omega (arith, head b))
parts-differ client_identify tunnel m n f b = absurd (omega (arith, head b))
parts-differ client_identify jump m n f b = absurd (omega (arith, head b))
parts-differ relay_identify client_identify m n f b = absurd (suffixes_differ m n f)
parts-differ client_identify relay_identify m n f b = absurd (suffixes_differ n m (sym f))

-- Of all names that peers of this program speak, whatever namespaces they were started with, two are
-- the same only if they serve the same purpose in the same namespace: the tunnel's, the jump's, and
-- the identify names of relays and clients never meet, and peers of different namespaces share none.
-- The namespaces are ones that passed the check.
pub protocol_of_iff :
    (p q : Purpose) (m n : Text)
    → check_namespace m ≡ ok tt
    → check_namespace n ≡ ok tt
    → (protocol_of p m ≡ protocol_of q n) ↔ ((p ≡ q) × (m ≡ n))
protocol_of_iff p q m n hm hn = (
  (λ e.
      let (f, b) =
        parts_same p q m n ((check_namespace_iff m).0 hm).1 ((check_namespace_iff n).0 hn).1 e in
      parts-differ p q m n f b),
  (λ h. rw (h.0, h.1) refl),
)
