-- ===== src/Libp2p/Sample.antt =====
-- A concrete pair of text forms, which shows that the assumptions about libp2p's can be met: each
-- protocol is written as a tag, a number and the bytes that the number counts.
use sape.Prelude.{
  ℕ, zero, suc, ◌+◌, ◌≤◌, ◌≡◌, refl, inr, Option, none, some, [], ◌∷◌, ◌++◌, arith, ◌==◌,
  if◌then◌else◌, length, take, drop, length-append, take-append, drop-append,
}
use sape.Prelude.Result.{Result, ok, err, ok_or}
use sape.Text.{Text, codes, strip_prefix}
use sape.Address.{Protocol, ip4, ip6, tcp, udp, quic_v1, ws, p2p, p2p_circuit, other, Multiaddr}
use sape.Libp2p.{TextForms, IsFaithful}

write_one : Protocol → Text → Text
write_one (ip4 a) r = 0 ∷ length a ∷ (a ++ r)
write_one (ip6 a) r = 1 ∷ length a ∷ (a ++ r)
write_one (tcp n) r = 2 ∷ n ∷ r
write_one (udp n) r = 3 ∷ n ∷ r
write_one quic_v1 r = 4 ∷ 0 ∷ r
write_one (ws a) r = 5 ∷ length a ∷ (a ++ r)
write_one (p2p a) r = 6 ∷ length a ∷ (a ++ r)
write_one p2p_circuit r = 7 ∷ 0 ∷ r
write_one (other a) r = 8 ∷ length a ∷ (a ++ r)

pub write : Multiaddr → Text
write [] = []
write (p ∷ addr) = write_one p (write addr)

read_one : ℕ → ℕ → Text → Protocol × Text
read_one tag n s =
    if tag == 0
    then (ip4 (take n s), drop n s)
    else if tag == 1
    then (ip6 (take n s), drop n s)
    else if tag == 2
    then (tcp n, s)
    else if tag == 3
    then (udp n, s)
    else if tag == 4
    then (quic_v1, s)
    else if tag == 5
    then (ws (take n s), drop n s)
    else if tag == 6
    then (p2p (take n s), drop n s)
    else if tag == 7
    then (p2p_circuit, s)
    else (other (take n s), drop n s)

prepend : Protocol → Option Multiaddr → Option Multiaddr
prepend p none = none
prepend p (some addr) = some (p ∷ addr)

pub read : ℕ → Text → Option Multiaddr
read f [] = some []
read zero (tag ∷ s) = none
read (suc f) (tag ∷ []) = none
read (suc f) (tag ∷ n ∷ s) = let (p, r) = read_one tag n s in prepend p (read f r)

step : (f : ℕ) (p : Protocol) (r : Text) → read (suc f) (write_one p r) ≡ prepend p (read f r)
unfolding read read_one write_one
step f (ip4 a) r = rw (take-append a r, drop-append a r)
step f (ip6 a) r = rw (take-append a r, drop-append a r)
step f (tcp n) r = refl
step f (udp n) r = refl
step f quic_v1 r = refl
step f (ws a) r = rw (take-append a r, drop-append a r)
step f (p2p a) r = rw (take-append a r, drop-append a r)
step f p2p_circuit r = refl
step f (other a) r = rw (take-append a r, drop-append a r)

read-nil : (f : ℕ) → read f [] ≡ some []
unfolding read
read-nil zero = refl
read-nil (suc f) = refl

read-write : (f : ℕ) (addr : Multiaddr) → length addr ≤ f → read f (write addr) ≡ some addr
unfolding write prepend
read-write f [] h = read-nil f
read-write zero (p ∷ addr) h = absurd (omega arith)
read-write (suc f) (p ∷ addr) h = rw (step f p (write addr)) (rw (read-write f addr (omega arith)))

length-write_one : (p : Protocol) (r : Text) → length r + 1 ≤ length (write_one p r)
unfolding write_one
length-write_one (ip4 a) r = omega (arith, length-append a r)
length-write_one (ip6 a) r = omega (arith, length-append a r)
length-write_one (tcp n) r = omega arith
length-write_one (udp n) r = omega arith
length-write_one quic_v1 r = omega arith
length-write_one (ws a) r = omega (arith, length-append a r)
length-write_one (p2p a) r = omega (arith, length-append a r)
length-write_one p2p_circuit r = omega arith
length-write_one (other a) r = omega (arith, length-append a r)

length-le-write : (addr : Multiaddr) → length addr ≤ length (write addr)
unfolding write
length-le-write [] = omega arith
length-le-write (p ∷ addr) = omega (arith, length-write_one p (write addr), length-le-write addr)

bad_text : Text
bad_text = codes "invalid multiaddr"

unfoldable pub parse : Text → Result Text Multiaddr
unfolding read read_one prepend bad_text
parse (slash ∷ s) = ok_or (read (length s) s) bad_text
parse [] = err bad_text

-- Peer ids are written as they are.
abbrev pub sample : TextForms
sample = record {
  peer_id_from_str = λ s. ok s;
  peer_id_to_string = λ id. id;
  multiaddr_from_str = parse;
  multiaddr_to_string = λ addr. b'/' ∷ write addr;
}

parse-write : (addr : Multiaddr) → parse (b'/' ∷ write addr) ≡ ok addr
unfolding parse
parse-write addr = rw (read-write (length (write addr)) addr (length-le-write addr))

not_mdns : (addr : Multiaddr) → strip_prefix (codes "/mdns/") (b'/' ∷ write addr) ≡ none
unfolding write write_one
not_mdns [] = refl
not_mdns (ip4 a ∷ addr) = refl
not_mdns (p ∷ addr) = refl

pub sample-IsFaithful : IsFaithful sample
sample-IsFaithful = record {
  peer_id_round = λ id. refl;
  multiaddr_round = parse-write;
  multiaddr_head = λ addr. inr (write addr, refl);
  multiaddr_not_mdns = not_mdns;
}
