-- ===== src/Wire/Written.antt =====
-- What an action does to the bytes that were written before it.
use sape.Prelude.{
  ◌≡◌, refl, sym, ap, ◌∙◌, inl, inr, [], ◌++◌, append-nil, append_assoc, leb, Bool-cases, length,
  take,
}
use sape.Prelude.Result.{Result, ok, err, map_err}
use sape.Prelude.Exec.{Exec, continue, match_result, map_error}
use sape.Wire.{
  Bytes, Stream, Codec, unencodable, u32_limit, try_from, u32_to_be_bytes, write_all, write_frame,
}

-- Nothing that was written before is taken back.
abbrev pub Appends : {E A : Type 0} → Stream → Result E A × Stream → Type 0
Appends s r = (extra : Bytes) × (r.1.outgoing ≡ s.outgoing ++ extra)

pub unchanged :
    (s t : Stream) → t.outgoing ≡ s.outgoing → (extra : Bytes) × (t.outgoing ≡ s.outgoing ++ extra)
unchanged s t e = ([], e ∙ sym (append-nil s.outgoing))

pub continue-Appends :
    {E A B : Type 0} (s : Stream) (r : Result E A × Stream) (k : A → Exec Stream E B)
    → Appends s r
    → ((a : A) (t : Stream) → Appends t (k a t))
    → Appends s (continue r k)
continue-Appends s (ok a, t) k (x, e) next =
    let (y, f) = next a t in (x ++ y, f ∙ ap (λ o. o ++ y) e ∙ append_assoc s.outgoing x y)
continue-Appends s (err x, t) k h next = h

module _ {E F A : Type 0} (f : E → F) where
  mapped-Appends :
      (s : Stream) (r : Result E A × Stream)
      → Appends s r
      → Appends s
          (match_result {C = Result F A × Stream} r (λ a s'. (ok a, s')) (λ e s'. (err (f e), s')))
  mapped-Appends s (ok a, t) h = h
  mapped-Appends s (err e, t) h = h

  pub map_error-Appends :
      (m : Exec Stream E A) (s : Stream) → Appends s (m s) → Appends s (map_error f m s)
  map_error-Appends m s h = mapped-Appends s (m s) h

pub write_all-Appends : (bytes : Bytes) (s : Stream) → Appends s (write_all bytes s)
unfolding write_all
write_all-Appends bytes s = elim (Bool-cases (leb (length bytes) s.room)) [
  | inl e ↦ rw e (bytes, refl)
  | inr e ↦ rw e (take s.room bytes, refl)
]

pub write_frame-Appends :
    {A : Type 0} (codec : Codec A) (a : A) (s : Stream) → Appends s (write_frame codec a s)
unfolding write_frame
write_frame-Appends codec a s =
    continue-Appends s (map_err unencodable (codec.to_allocvec a), s) _ (unchanged s s refl)
      (λ bytes t.
        continue-Appends t (try_from u32_limit (length bytes), t) _ (unchanged t t refl)
          (λ len u.
            continue-Appends u (write_all (u32_to_be_bytes len) u) _
              (write_all-Appends (u32_to_be_bytes len) u)
              (λ v w.
                continue-Appends w (write_all bytes w) _ (write_all-Appends bytes w)
                  (λ x y. unchanged y y refl))))
