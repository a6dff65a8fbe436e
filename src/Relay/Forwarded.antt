-- ===== src/Relay/Forwarded.antt =====
-- What a relay sends on to the next one, whatever that one answers.
use sape.Prelude.{
  ℕ, ◌+◌, ◌-◌, ◌≤◌, ◌≡◌, refl, ap, ◌∙◌, inl, inr, List, ◌∷◌, ◌++◌, ltb, leb, Bool-cases, length,
}
use sape.Prelude.Result.{Result, ok, err, map_err}
use sape.Prelude.Exec.{continue, match_result, lift, ◌>>◌}
use sape.Text.{Text}
use sape.Wire.{
  Stream, IoError, Io, Codec, max_request_size, read_exact, read_frame, from_be_bytes, undecodable,
}
use sape.Wire.Frame.{framed, IsSendable, write-sendable}
use sape.Jump
use sape.Jump.{JumpChain, JumpResult, jump_ok, jump_error}
use sape.Relay.{
  bridge, Session, Surroundings, RelayError, act, Handler, on_inbound, on_outbound, forward_rest,
  handle_jump_request, answer_back,
}
use sape.Relay.Hop.{Reaches, reaching, process-reaches, handle-process}

continue-sent :
    {A B : Type 0} (r : Result IoError A × Stream) (f : A → Io B)
    → ((a : A) (s : Stream) → (f a s).1.outgoing ≡ s.outgoing)
    → (continue r f).1.outgoing ≡ r.1.outgoing
continue-sent (ok a, s) f kept = kept a s
continue-sent (err e, s) f kept = refl

read_exact-sent : (n : ℕ) (s : Stream) → (read_exact n s).1.outgoing ≡ s.outgoing
unfolding read_exact
read_exact-sent n s = elim (Bool-cases (leb n (length s.incoming))) [
  | inl e ↦ rw e refl
  | inr e ↦ rw e refl
]

-- Reading a frame sends nothing.
pub read_frame-sent :
    {A : Type 0} (codec : Codec A) (s : Stream) → (read_frame codec s).1.outgoing ≡ s.outgoing
unfolding read_frame
read_frame-sent codec s =
    continue-sent (read_exact 4 s) _ (λ buf t.
      elim (Bool-cases (ltb max_request_size (from_be_bytes buf))) [
        | inl e ↦ rw e refl
        | inr e ↦ rw e (
            continue-sent (read_exact (from_be_bytes buf) t)
              (λ body. lift (map_err undecodable (codec.from_bytes body))) (λ body u. refl)
            ∙ read_exact-sent (from_be_bytes buf) t)
      ])
    ∙ read_exact-sent 4 s

continue-silent :
    {A B : Type 0} (r : Result RelayError A × Session) (f : A → Handler B)
    → ((a : A) (s : Session) → (f a s).1.outbound.outgoing ≡ s.outbound.outgoing)
    → (continue r f).1.outbound.outgoing ≡ r.1.outbound.outgoing
continue-silent (ok a, s) f kept = kept a s
continue-silent (err e, s) f kept = refl

inbound-silent :
    {A : Type 0} (f : IoError → RelayError) (r : Result IoError A × Stream) (s : Session)
    → (match_result {C = Result RelayError A × Session} r
        (λ a t. (ok a, record s { inbound = t }))
        (λ e t. (err (f e), record s { inbound = t }))).1.outbound
      ≡ s.outbound
inbound-silent f (ok a, t) s = refl
inbound-silent f (err e, t) s = refl

on_outbound-sent :
    {A : Type 0} (f : IoError → RelayError) (r : Result IoError A × Stream) (s : Session)
    → (match_result {C = Result RelayError A × Session} r
        (λ a t. (ok a, record s { outbound = t }))
        (λ e t. (err (f e), record s { outbound = t }))).1.outbound
      ≡ r.1
on_outbound-sent f (ok a, t) s = refl
on_outbound-sent f (err e, t) s = refl

module _ (env : Surroundings) where
  answer_back-silent :
      (answer : JumpResult) (s : Session)
      → (answer_back env answer s).1.outbound.outgoing ≡ s.outbound.outgoing
  answer_back-silent jump_ok s = refl
  answer_back-silent (jump_error e) s =
      continue-silent
        (on_inbound RelayError.io (Jump.write_jump_result env.results (jump_error e)) s)
        (λ u t. (err (RelayError.downstream_failed e), t)) (λ u t. refl)
      ∙ ap (λ o. o.outgoing)
          (inbound-silent RelayError.io
            (Jump.write_jump_result env.results (jump_error e) s.inbound) s)

  -- The relay sends the rest of the chain to the hop that it reached, and nothing else, whatever
  -- comes back from there.
  pub handle_jump_request-forwards :
      (hop next : Text) (hops : List Text) (r : Reaches env hop env.jump_proto)
      (h : IsSendable env.chains (record { hops = hop ∷ next ∷ hops }))
      (c : IsSendable env.chains (record { hops = next ∷ hops })) (s : Session) (rest : List ℕ)
      → s.inbound.incoming ≡ framed h.bytes ++ rest
      → length c.bytes + 4 ≤ r.stream.room
      → (handle_jump_request env s).1.outbound.outgoing ≡ r.stream.outgoing ++ framed c.bytes
  unfolding forward_rest
  handle_jump_request-forwards hop next hops r h c s rest e room =
      let s1 = record s { inbound = record s.inbound { incoming = rest } } in
      let s2 = record s1 { outbound = r.stream; actions = s.actions ++ reaching r } in
      let sent = record r.stream {
        outgoing = r.stream.outgoing ++ framed c.bytes;
        room = r.stream.room - (length c.bytes + 4);
      } in
      let s3 = record s2 { outbound = sent } in
      rw
        (
          handle-process env (record { hops = hop ∷ next ∷ hops }) h s rest e,
          process-reaches env hop (next ∷ hops) r s1,
        )
        (continue-silent (forward_rest env (next ∷ hops) s2)
            (λ u.
              on_inbound RelayError.io (Jump.write_jump_result env.results jump_ok) >> act bridge)
            (λ u t.
              continue-silent
                (on_inbound RelayError.io (Jump.write_jump_result env.results jump_ok) t)
                (λ v. act bridge) (λ v w. refl)
              ∙ ap (λ o. o.outgoing)
                  (inbound-silent RelayError.io
                    (Jump.write_jump_result env.results jump_ok t.inbound) t))
          ∙ rw (write-sendable env.chains (record { hops = next ∷ hops }) c r.stream room) (
              continue-silent (on_outbound RelayError.io (Jump.read_jump_result env.results) s3)
                (answer_back env) answer_back-silent
              ∙ ap (λ o. o.outgoing)
                  (on_outbound-sent RelayError.io (Jump.read_jump_result env.results sent) s3)
              ∙ read_frame-sent env.results sent))
