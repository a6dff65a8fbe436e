-- ===== src/Dial/Mode.antt =====
-- The mode that a dialler's options select.
use mathlib.Core.Path.{subst}
use sape.Prelude.{◌≡◌, refl, ◌↔◌, ◌⊎◌, inl, inr, none, some, Option-cases}
use sape.Cli.{DialOpt}
use sape.Target.{ForwardSpec}
use sape.Dial.{
  DialMode, netcat_mode, local_forward_mode, reverse_forward_mode, socks5_mode, parse_dial_mode,
}

-- What the command line accepts: at most one of the three tunnel options.
abbrev pub AtMostOne : DialOpt → Type 0
AtMostOne opt =
    ((opt.local_forward ≡ none) ⊎ ((opt.remote_forward ≡ none) × (opt.socks ≡ none)))
    × ((opt.remote_forward ≡ none) ⊎ (opt.socks ≡ none))

-- The mode is the one that the options ask for.
abbrev pub AsksFor : DialOpt → DialMode → Type 0
AsksFor opt netcat_mode =
    (opt.local_forward ≡ none) × ((opt.remote_forward ≡ none) × (opt.socks ≡ none))
AsksFor opt (local_forward_mode port target) =
    (spec : ForwardSpec) × ((opt.local_forward ≡ some spec)
      × ((spec.bind_port ≡ port) × (spec.target ≡ target)))
AsksFor opt (reverse_forward_mode port target gateway_ports) =
    (spec : ForwardSpec) × ((opt.remote_forward ≡ some spec)
      × ((spec.bind_port ≡ port) × ((spec.target ≡ target) × (opt.gateway_ports ≡ gateway_ports))))
AsksFor opt (socks5_mode port) = opt.socks ≡ some port

parsed-AsksFor : (opt : DialOpt) → AsksFor opt (parse_dial_mode opt)
unfolding parse_dial_mode
parsed-AsksFor opt = elim (Option-cases opt.local_forward) [
  | inr (spec, l) ↦ rw l (spec, (refl, (refl, refl)))
  | inl l ↦ elim (Option-cases opt.remote_forward) [
    | inr (spec, r) ↦ rw (l, r) (spec, (refl, (refl, (refl, refl))))
    | inl r ↦ elim (Option-cases opt.socks) [
      | inr (port, k) ↦ rw (l, r, k) refl
      | inl k ↦ rw (l, r, k) (refl, (refl, refl))
    ]
  ]
]

-- Options that ask for two modes ask for the same.
asks-once : (opt : DialOpt) (m n : DialMode) → AtMostOne opt → AsksFor opt m → AsksFor opt n → m ≡ n
asks-once opt netcat_mode netcat_mode one a b = refl
asks-once opt netcat_mode (local_forward_mode p t) one a (spec, b) = cc (a.0, b.0)
asks-once opt netcat_mode (reverse_forward_mode p t g) one a (spec, b) = cc (a.1.0, b.0)
asks-once opt netcat_mode (socks5_mode p) one a b = cc (a.1.1, b)
asks-once opt (local_forward_mode p t) netcat_mode one (spec, a) b = cc (b.0, a.0)
asks-once opt (local_forward_mode p t) (local_forward_mode q u) one (spec, a) (spec', b) =
    cc (a.0, b.0, a.1.0, b.1.0, a.1.1, b.1.1)
asks-once opt (local_forward_mode p t) (reverse_forward_mode q u g) one (spec, a) (spec', b) =
    elim one.0 [ inl l ↦ cc (l, a.0) | inr r ↦ cc (r.0, b.0) ]
asks-once opt (local_forward_mode p t) (socks5_mode q) one (spec, a) b = elim one.0 [
  | inl l ↦ cc (l, a.0)
  | inr r ↦ cc (r.1, b)
]
asks-once opt (reverse_forward_mode p t g) netcat_mode one (spec, a) b = cc (b.1.0, a.0)
asks-once opt (reverse_forward_mode p t g) (local_forward_mode q u) one (spec, a) (spec', b) =
    elim one.0 [ inl l ↦ cc (l, b.0) | inr r ↦ cc (r.0, a.0) ]
asks-once opt (reverse_forward_mode p t g) (reverse_forward_mode q u h) one (spec, a) (spec', b) =
    cc (a.0, b.0, a.1.0, b.1.0, a.1.1.0, b.1.1.0, a.1.1.1, b.1.1.1)
asks-once opt (reverse_forward_mode p t g) (socks5_mode q) one (spec, a) b = elim one.1 [
  | inl l ↦ cc (l, a.0)
  | inr r ↦ cc (r, b)
]
asks-once opt (socks5_mode p) netcat_mode one a b = cc (b.1.1, a)
asks-once opt (socks5_mode p) (local_forward_mode q u) one a (spec, b) = elim one.0 [
  | inl l ↦ cc (l, b.0)
  | inr r ↦ cc (r.1, a)
]
asks-once opt (socks5_mode p) (reverse_forward_mode q u h) one a (spec, b) = elim one.1 [
  | inl l ↦ cc (l, b.0)
  | inr r ↦ cc (r, a)
]
asks-once opt (socks5_mode p) (socks5_mode q) one a b = cc (a, b)

-- With at most one tunnel option, which the command line sees to, the mode is the one that the
-- options ask for and no other: the forward or proxy that was given, with its port and target and
-- the gateway flag, and netcat exactly where none was given.
pub parse_dial_mode_iff :
    (opt : DialOpt) (mode : DialMode)
    → AtMostOne opt
    → (parse_dial_mode opt ≡ mode) ↔ AsksFor opt mode
parse_dial_mode_iff opt mode one = (
  (λ e. subst (λ m. AsksFor opt m) e (parsed-AsksFor opt)),
  (λ a. asks-once opt (parse_dial_mode opt) mode one (parsed-AsksFor opt) a),
)
