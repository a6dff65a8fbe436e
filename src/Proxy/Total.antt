-- ===== src/Proxy/Total.antt =====
-- HTTP CONNECT on every input: it ends, and a request that is none is refused.
use sape.Prelude.{
  ℕ, zero, suc, ◌+◌, ◌-◌, ◌≤◌, ◌<◌, ◌≡◌, refl, ◌≢◌, ◌⊎◌, inl, inr, true, Option, none, some, List,
  [], ◌∷◌, ◌++◌, arith, leb, ◌==◌, Bool-cases, length,
}
use sape.Prelude.Result.{Result, ok, err}
use sape.Prelude.Exec.{continue, match_result, ◌>>=◌, ◌>>◌}
use sape.Text.{Text, is_empty, trim}
use sape.Text.Utf8.{from_utf8, from_utf8_nil, split_whitespace}
use sape.Wire.{Bytes, Stream, IoError, Codec}
use sape.Tunnel.{TunnelRequest, local_forward, write_tunnel_request}
use sape.Proxy.Words.{AskFor, connect_target-none}
use sape.Proxy.{
  Proxy, line_of, fault_in, runs_out, Unread, Client, ProxyError, out_of_fuel, prepend, unless,
  read_until, read_line, skip_headers, skip_all_headers, total, connect_target, bad_request, send,
  request_tunnel, handle_http_connect, invalid_connect_request, drop_reader, target_or_refuse,
  established, request_failed,
}
use sape.Proxy.Reader.{IsUnread, advanced, read_line-line}
use sape.Proxy.Http.{IsLine}

abbrev size : Unread → ℕ
size (buffer, reads) = length buffer + total reads

-- A line that is not empty was taken from what was there.
abbrev Shrinks : ℕ → Bytes × Unread → Type 0
Shrinks n (line, unread) = (line ≡ []) ⊎ (size unread < n)

prepend-Shrinks : (n c : ℕ) (r : Bytes × Unread) → size r.1 ≤ n → Shrinks (suc n) (prepend c r)
prepend-Shrinks n c (line, unread) le = inr (omega arith)

read_until-le :
    (reads : List Bytes) (buffer : Bytes)
    → size (read_until reads buffer).1 ≤ length buffer + total reads
unfolding read_until
read_until-le reads (c ∷ buffer) = ground (arith, read_until-le reads buffer)
read_until-le [] [] = omega arith
read_until-le ([] ∷ reads) [] = omega arith
read_until-le ((c ∷ chunk) ∷ reads) [] = ground (arith, read_until-le reads chunk)

read_until-Shrinks :
    (reads : List Bytes) (buffer : Bytes)
    → Shrinks (length buffer + total reads) (read_until reads buffer)
unfolding read_until
read_until-Shrinks reads (c ∷ buffer) = elim (Bool-cases (c == b'\n')) [
  | inl e ↦ rw (e, read_until) (inr (omega arith))
  | inr e ↦ rw (e, read_until) (inr (omega (arith, read_until-le reads buffer)))
]
read_until-Shrinks [] [] = inl refl
read_until-Shrinks ([] ∷ reads) [] = inl refl
read_until-Shrinks ((c ∷ chunk) ∷ reads) [] = elim (Bool-cases (c == b'\n')) [
  | inl e ↦ rw (e, read_until) (inr (omega arith))
  | inr e ↦ rw (e, read_until) (inr (omega (arith, read_until-le reads chunk)))
]

-- One line: it cannot be read, it is the end of the stream, or there is less to read after it.
abbrev LineRead : Client → Result ProxyError Text × Client → Type 0
LineRead c (err e, c') = e ≢ out_of_fuel
LineRead c (ok text, c') =
    (text ≡ []) ⊎ (length c'.buffer + total c'.reads < length c.buffer + total c.reads)

line_read :
    (c : Client) (line : Bytes) (unread : Unread) (fault o : Option Text)
    → from_utf8 line ≡ o
    → Shrinks (length c.buffer + total c.reads) (line, unread)
    → LineRead c (line_of fault o, record c { buffer = unread.0; reads = unread.1 })
line_read c line unread (some f) o e s = λ same. cc
line_read c line unread none none e s = λ same. cc
line_read c line unread none (some text) e (inl empty) = inl (cc (e, empty, from_utf8_nil))
line_read c line unread none (some text) e (inr less) = inr less

read_line-LineRead : (c : Client) → LineRead c (read_line c)
unfolding read_line
read_line-LineRead c =
    let r = read_until c.reads c.buffer in
    line_read c r.0 r.1 (fault_in (runs_out c.reads c.buffer) c.fault) (from_utf8 r.0) refl
      (read_until-Shrinks c.reads c.buffer)

trim_nil : is_empty (trim []) ≡ true
unfolding trim
trim_nil = refl

skip_headers-ends :
    (fuel : ℕ) (c : Client)
    → length c.buffer + total c.reads < fuel
    → (skip_headers fuel c).0 ≢ err out_of_fuel
unfolding skip_headers
skip_headers-ends zero c lt = absurd (omega arith)
skip_headers-ends (suc fuel) c lt =
    after (read_line c) (read_line-LineRead c) (λ c' less. skip_headers-ends fuel c' less)
  where
    after :
        (r : Result ProxyError Text × Client)
        → LineRead c r
        → ((c' : Client)
            → length c'.buffer + total c'.reads < fuel
            → (skip_headers fuel c').0 ≢ err out_of_fuel)
        → (continue r (λ line. unless (is_empty (trim line)) (skip_headers fuel))).0
          ≢ err out_of_fuel
    after (err e, c') h ih = λ same. h (cc same)
    after (ok text, c') h ih = elim (Bool-cases (is_empty (trim text))) [
      | inl stop ↦ rw stop (λ same. cc)
      | inr goes_on ↦
          rw goes_on
            (elim h [ inl nil ↦ cc (rw nil at goes_on, trim_nil) | inr less ↦ ih c' (omega arith) ])
    ]

abbrev pub Ends : {A : Type 0} → Result ProxyError A × Client → Type 0
Ends r = r.0 ≢ err out_of_fuel

continue-Ends :
    {A B : Type 0} (r : Result ProxyError A × Client)
    (f : A → Client → Result ProxyError B × Client)
    → Ends r
    → ((a : A) (c : Client) → Ends (f a c))
    → Ends (continue r f)
continue-Ends (err e, c) f r_ends f_ends = λ same. r_ends (cc same)
continue-Ends (ok a, c) f r_ends f_ends = f_ends a c

read_line-Ends : (c : Client) → Ends (read_line c)
read_line-Ends c = line_ends (read_line c) (read_line-LineRead c)
  where
    line_ends : (r : Result ProxyError Text × Client) → LineRead c r → Ends r
    line_ends (err e, c') h = λ same. h (cc same)
    line_ends (ok text, c') h = λ same. cc

send-Ends : (bytes : Bytes) (c : Client) → Ends (send bytes c)
unfolding send
send-Ends bytes c = elim (Bool-cases (leb (length bytes) c.room)) [
  | inl fits ↦ rw fits (λ same. cc)
  | inr cut ↦ rw cut (λ same. cc)
]

target_or_refuse-Ends :
    (line : Text) (o : Option Text) (c : Client) → Ends (target_or_refuse line o c)
target_or_refuse-Ends line (some target) c = λ same. cc
target_or_refuse-Ends line none c =
    continue-Ends (send bad_request (record c { buffer = [] }))
      (λ u c'. (err (invalid_connect_request line), c'))
      (send-Ends bad_request (record c { buffer = [] })) (λ u c' same. cc)

module _ (codec : Codec TunnelRequest) (opened : Result Text Stream) where
  request_tunnel-Ends : (target : Text) (c : Client) → Ends (request_tunnel codec opened target c)
  unfolding request_tunnel
  request_tunnel-Ends target c = elim opened as (λ o. Ends (request_tunnel codec o target c)) [
    | err e ↦ λ same. cc
    | ok stream ↦ written (write_tunnel_request codec (local_forward target) stream)
  ]
    where
      written :
          (r : Result IoError (Unit {0}) × Stream)
          → Ends (
              match_result r
                (λ u s. (ok tt, record c { tunnel = some s }))
                (λ e s. (err (request_failed e), record c { tunnel = some s })))
      written (ok u, s) = λ same. cc
      written (err e, s) = λ same. cc

  -- However the client's bytes come, and wherever they end, the loop over the headers ends by itself:
  -- the request is answered, or it fails with an error of the code.
  pub handle_http_connect-ends :
      (c : Client) → (handle_http_connect codec opened c).0 ≢ err out_of_fuel
  unfolding handle_http_connect skip_all_headers
  handle_http_connect-ends c = continue-Ends (read_line c) connect (read_line-Ends c) (λ line c1.
      continue-Ends (target_or_refuse line (connect_target (split_whitespace line)) c1) tunnelled
        (target_or_refuse-Ends line (connect_target (split_whitespace line)) c1)
        (λ target c2.
          continue-Ends (skip_all_headers c2)
            (λ u c3.
              (request_tunnel codec opened target >> send established) (record c3 { buffer = [] }))
            (skip_headers-ends (suc (length c2.buffer + total c2.reads)) c2 (omega arith))
            (λ u c3.
              continue-Ends (request_tunnel codec opened target (record c3 { buffer = [] }))
                (λ v. send established) (request_tunnel-Ends target (record c3 { buffer = [] }))
                (λ v c4. send-Ends established c4))))
    where
      tunnelled : Text → Proxy (Unit {0})
      tunnelled target =
          skip_all_headers
          >> (drop_reader >> (request_tunnel codec opened target >> send established))

      connect : Text → Proxy (Unit {0})
      connect line = target_or_refuse line (connect_target (split_whitespace line)) >>= tunnelled

  -- A connection whose first line, read whole, does not have the words of a request to connect, which
  -- are CONNECT, a target, a version and perhaps more, is answered 400 and ends with an error that
  -- tells the line; no stream is touched for it, and what else was read of it is lost with the reader.
  -- The client's connection has to carry the answer.
  pub handle_http_connect-refuses :
      (c : Client) (line rest : Bytes) (text : Text)
      → IsUnread c (line ++ b'\n' ∷ rest)
      → IsLine line text
      → (¬ ((target : Text) × AskFor (split_whitespace text) target))
      → length bad_request ≤ c.room
      → handle_http_connect codec opened c ≡ (
        err (invalid_connect_request text),
        record (advanced (suc (length line)) c) {
          buffer = [];
          sent = c.sent ++ bad_request;
          room = c.room - length bad_request;
        },
      )
  unfolding handle_http_connect send
  handle_http_connect-refuses c line rest text u is none_asked room =
      rw
        (
          read_line-line c line rest text u is.0 is.1,
          connect_target-none (split_whitespace text) none_asked,
        )
        (ground arith)
