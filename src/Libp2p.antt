-- ===== src/Libp2p.antt =====
-- What the program relies on of libp2p's text forms of peer ids and multiaddresses.
pub mod Sample
use sape.Prelude.{
  ℕ, zero, suc, ◌+◌, ◌-◌, ◌*◌, ◌/◌, ◌%◌, ◌≤◌, ◌<◌, ◌≡◌, refl, sym, ap, ◌∙◌, ◌≢◌, ◌↔◌, ◌⊎◌, inl, inr,
  Bool, true, false, not, ◌&&◌, ◌||◌, Option, none, some, List, [], ◌∷◌, ◌++◌, map, append-nil,
  append_assoc, arith, ltb, leb, ◌==◌, if◌then◌else◌, ==_iff, Bool-cases, Option-cases, length,
  get_elem?, take, drop, length-append, take-append, drop-append, All, All-append,
}
use sape.Prelude.Result.{Result, ok, err}
use sape.Text.{Text, codes, strip_prefix}
use sape.Address.{PeerId, Multiaddr}

-- An error of a parser is the text that it prints.
pub record TextForms : Type 0 where
  pub peer_id_from_str : Text → Result Text PeerId
  pub peer_id_to_string : PeerId → Text
  pub multiaddr_from_str : Text → Result Text Multiaddr
  pub multiaddr_to_string : Multiaddr → Text

-- The documented behaviour of the text forms: what is printed is read back, and a printed
-- multiaddress starts with a slash and a protocol's name, none of which is `mdns`.
pub record IsFaithful (l : TextForms) : Type 0 where
  pub peer_id_round : (id : PeerId) → l.peer_id_from_str (l.peer_id_to_string id) ≡ ok id
  pub multiaddr_round :
      (addr : Multiaddr) → l.multiaddr_from_str (l.multiaddr_to_string addr) ≡ ok addr
  pub multiaddr_head :
      (addr : Multiaddr)
      → (l.multiaddr_to_string addr ≡ []) ⊎ ((s : Text) × (l.multiaddr_to_string addr ≡ b'/' ∷ s))
  pub multiaddr_not_mdns :
      (addr : Multiaddr) → strip_prefix (codes "/mdns/") (l.multiaddr_to_string addr) ≡ none
