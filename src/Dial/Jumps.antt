-- ===== src/Dial/Jumps.antt =====
-- The jump session of a dialler, and the mode it parses.
use sape.Prelude.{
  ℕ, ◌+◌, ◌-◌, ◌≤◌, ◌≡◌, refl, sym, List, [], ◌∷◌, ◌++◌, map, append-nil, append_assoc, arith,
  length,
}
use sape.Prelude.Result.{Result, ok, err}
use sape.Text.{Text}
use sape.Address.{Multiaddr}
use sape.Libp2p.{TextForms, IsFaithful}
use sape.Target.{DialTarget, mdns, relay_circuit, pairing_code}
use sape.Wire.{Stream, Codec}
use sape.Wire.Frame.{IsSendable, write-sendable, read-sendable, framed}
use sape.Tunnel.{TunnelRequest, netcat}
use sape.Jump.{JumpChain, JumpResult, jump_ok, jump_error}
use sape.Dial.{netcat_mode, JumpFailure, chain_failed, jump_hops, jump_session}

-- What a dialler in netcat mode makes of the answer.
abbrev pub outcome_of : JumpResult → Result JumpFailure (Unit {0})
outcome_of jump_ok = ok tt
outcome_of (jump_error e) = err (chain_failed e)

-- What it writes behind the chain.
abbrev pub request_behind : JumpResult → List ℕ → List ℕ
request_behind jump_ok request = framed request
request_behind (jump_error e) request = []

module _ (chains : Codec JumpChain) (results : Codec JumpResult)
    (requests : Codec TunnelRequest) where
  -- A dialler in netcat mode writes the chain, waits for the relay's answer, and writes its request
  -- exactly where that answer is success; otherwise it fails with the relay's error, and nothing of
  -- its request is on the stream.
  pub jump_session-answered :
      (chain : JumpChain) (c : IsSendable chains chain) (answer : JumpResult)
      (a : IsSendable results answer) (n : IsSendable requests netcat) (s : Stream) (rest : List ℕ)
      → s.incoming ≡ framed a.bytes ++ rest
      → length c.bytes + (length n.bytes + 8) ≤ s.room
      → ((jump_session chains results requests chain netcat_mode s).0 ≡ outcome_of answer)
        × (((jump_session chains results requests chain netcat_mode s).1.outgoing
              ≡ s.outgoing ++ (framed c.bytes ++ request_behind answer n.bytes))
            × ((jump_session chains results requests chain netcat_mode s).1.incoming ≡ rest))
  unfolding jump_session
  jump_session-answered chain c jump_ok a n s rest e room =
      let written = record s {
        outgoing = s.outgoing ++ framed c.bytes;
        room = s.room - (length c.bytes + 4);
      } in
      rw
        (
          write-sendable chains chain c s (omega arith),
          read-sendable results jump_ok a written rest e,
          write-sendable requests netcat n (record written { incoming = rest }) (omega arith),
        )
        (refl, (simp append_assoc, refl))
  jump_session-answered chain c (jump_error msg) a n s rest e room =
      let written = record s {
        outgoing = s.outgoing ++ framed c.bytes;
        room = s.room - (length c.bytes + 4);
      } in
      rw
        (
          write-sendable chains chain c s (omega arith),
          read-sendable results (jump_error msg) a written rest e,
        )
        (refl, (rw append-nil, refl))

-- Every text of the list is read as the address of the other at its place.
abbrev pub ReadAs : TextForms → List Text → List Multiaddr → Type 0
ReadAs forms [] [] = Unit {0}
ReadAs forms [] (addr ∷ addrs) = ⊥
ReadAs forms (hop ∷ hops) [] = ⊥
ReadAs forms (hop ∷ hops) (addr ∷ addrs) =
    (forms.multiaddr_from_str hop ≡ ok addr) × ReadAs forms hops addrs

printed-ReadAs :
    (forms : TextForms) (faithful : IsFaithful forms) (rest : List Multiaddr) (addr : Multiaddr)
    → ReadAs forms
        (map forms.multiaddr_to_string rest ++ forms.multiaddr_to_string addr ∷ [])
        (rest ++ addr ∷ [])
printed-ReadAs forms faithful [] addr = (faithful.multiaddr_round addr, tt)
printed-ReadAs forms faithful (a ∷ rest) addr =
    (faithful.multiaddr_round a, printed-ReadAs forms faithful rest addr)

-- A jump chain is made for a circuit target only, and the relays read in it the very addresses that
-- were typed: those behind the first jump, in their order, and the target as the last.
pub jump_hops-ReadAs :
    (forms : TextForms) (target : DialTarget) (rest : List Multiaddr) (hops : List Text)
    (faithful : IsFaithful forms)
    → jump_hops forms target rest ≡ ok hops
    → (addr : Multiaddr) × ((target ≡ relay_circuit addr) × ReadAs forms hops (rest ++ addr ∷ []))
unfolding jump_hops
jump_hops-ReadAs forms (mdns p) rest hops faithful h = cc
jump_hops-ReadAs forms (pairing_code code) rest hops faithful h = cc
jump_hops-ReadAs forms (relay_circuit addr) rest hops faithful h =
    (addr, (refl, rw (sym (hops_of h)) (printed-ReadAs forms faithful rest addr)))
  where
    hops_of : {a b : List Text} → ◌≡◌ {A = Result JumpFailure (List Text)} (ok a) (ok b) → a ≡ b
    hops_of h = cc
