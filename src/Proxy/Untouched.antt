-- ===== src/Proxy/Untouched.antt =====
-- What leaves the tunnel's stream as it is.
use sape.Prelude.{
  ℕ, zero, suc, ◌≡◌, refl, ap, ◌∙◌, inl, inr, Bool, true, false, Option, none, some, [], leb,
  Bool-cases, length,
}
use sape.Prelude.Result.{Result, ok, err}
use sape.Prelude.Exec.{continue, continue-ok, match_result}
use sape.Text.{Text, is_empty, trim}
use sape.Wire.{Bytes, Stream}
use sape.Proxy.{
  Proxy, Client, ProxyError, unless, read_line, skip_headers, send, target_or_refuse, bad_request,
  invalid_connect_request, negotiation_failed,
}

abbrev pub Tells : (Stream → Type 0) → Option Stream → Type 0
Tells P o = (s : Stream) → o ≡ some s → P s

pub nothing-Tells : (P : Stream → Type 0) (o : Option Stream) → o ≡ none → Tells P o
nothing-Tells P o e s h = absurd (cc (e, h))

pub continue-Tells :
    {A B : Type 0} (P : Stream → Type 0) (r : Result ProxyError A × Client)
    (f : A → Client → Result ProxyError B × Client)
    → r.1.tunnel ≡ none
    → ((a : A) (c : Client) → r ≡ (ok a, c) → c.tunnel ≡ none → Tells P (f a c).1.tunnel)
    → Tells P (continue r f).1.tunnel
continue-Tells P (err e, c) f untouched rest = nothing-Tells P c.tunnel untouched
continue-Tells P (ok a, c) f untouched rest = rest a c refl untouched

pub continue-keeps :
    {A B : Type 0} (r : Result ProxyError A × Client)
    (f : A → Client → Result ProxyError B × Client)
    → ((a : A) (c : Client) → (f a c).1.tunnel ≡ c.tunnel)
    → (continue r f).1.tunnel ≡ r.1.tunnel
continue-keeps (err e, c) f kept = refl
continue-keeps (ok a, c) f kept = kept a c

pub read_line-keeps : (c : Client) → (read_line c).1.tunnel ≡ c.tunnel
unfolding read_line
read_line-keeps c = refl

pub send-keeps : (bytes : Bytes) (c : Client) → (send bytes c).1.tunnel ≡ c.tunnel
unfolding send
send-keeps bytes c = elim (Bool-cases (leb (length bytes) c.room)) [
  | inl fits ↦ rw fits refl
  | inr cut ↦ rw cut refl
]

pub unless-keeps :
    (b : Bool) (rest : Proxy (Unit {0})) (c : Client)
    → (rest c).1.tunnel ≡ c.tunnel
    → (unless b rest c).1.tunnel ≡ c.tunnel
unless-keeps true rest c kept = refl
unless-keeps false rest c kept = kept

pub skip_headers-keeps : (fuel : ℕ) (c : Client) → (skip_headers fuel c).1.tunnel ≡ c.tunnel
unfolding skip_headers
skip_headers-keeps zero c = refl
skip_headers-keeps (suc fuel) c =
    continue-keeps (read_line c) (λ line. unless (is_empty (trim line)) (skip_headers fuel))
      (λ line c'.
        unless-keeps (is_empty (trim line)) (skip_headers fuel) c' (skip_headers-keeps fuel c'))
    ∙ read_line-keeps c

pub target_or_refuse-keeps :
    (line : Text) (o : Option Text) (c : Client) → (target_or_refuse line o c).1.tunnel ≡ c.tunnel
target_or_refuse-keeps line (some target) c = refl
target_or_refuse-keeps line none c =
    continue-keeps (send bad_request (record c { buffer = [] }))
      (λ u c'. (err (invalid_connect_request line), c')) (λ u c'. refl)
    ∙ send-keeps bad_request (record c { buffer = [] })

pub target_or_refuse-some :
    (line : Text) (o : Option Text) (c : Client) (target : Text) (c' : Client)
    → target_or_refuse line o c ≡ (ok target, c')
    → o ≡ some target
target_or_refuse-some line (some t) c target c' h = cc
target_or_refuse-some line none c target c' h =
    let (u, (d, (sent, ended))) =
      continue-ok (send bad_request (record c { buffer = [] }))
        (λ u d. (err (invalid_connect_request line), d)) target (ap (λ r. r.0) h) in
    absurd (cc ended)

pub map_error-keeps :
    {A : Type 0} (r : Result Text A × Client)
    → (match_result {C = Result ProxyError A × Client} r
        (λ a d. (ok a, d))
        (λ e d. (err (negotiation_failed e), d))).1.tunnel
      ≡ r.1.tunnel
map_error-keeps (ok a, c) = refl
map_error-keeps (err e, c) = refl

pub map_error-ok :
    {A : Type 0} (r : Result Text A × Client) (a : A) (d : Client)
    → match_result {C = Result ProxyError A × Client} r
        (λ a d. (ok a, d))
        (λ e d. (err (negotiation_failed e), d))
      ≡ (ok a, d)
    → r ≡ (ok a, d)
map_error-ok (ok b, c) a d h = cc
map_error-ok (err e, c) a d h = absurd (cc h)
