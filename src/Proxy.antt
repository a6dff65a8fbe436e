-- ===== src/Proxy.antt =====
-- src/forward/socks5.rs: what a local proxy does with one client's connection.
pub mod Words
pub mod Reader
pub mod Http
pub mod Total
pub mod Untouched
pub mod Socks
pub mod EndToEnd
mod Tests
use sape.Prelude.{
  ℕ, zero, suc, ◌+◌, ◌-◌, ◌*◌, ◌/◌, ◌%◌, ◌≤◌, ◌<◌, ◌≡◌, refl, sym, ap, ◌∙◌, ◌≢◌, ◌↔◌, ◌⊎◌, inl, inr,
  Bool, true, false, not, ◌&&◌, ◌||◌, Option, none, some, List, [], ◌∷◌, ◌++◌, map, append-nil,
  append_assoc, arith, ltb, leb, ◌==◌, if◌then◌else◌, ==_iff, Bool-cases, Option-cases, length,
  get_elem?, take, drop, length-append, take-append, drop-append, All, All-append,
}
use sape.Prelude.Result.{Result, ok, err, map_err}
use sape.Prelude.Exec.{Exec, pure, raise, lift, map_error, match_result, ◌>>=◌, ◌>>◌}
use sape.Text.{Text, codes, is_empty, trim, text_eq}
use sape.Text.Utf8.{from_utf8, split_whitespace}
use sape.Wire.{Bytes, Stream, IoError, Io, Codec}
use sape.Tunnel.{TunnelRequest, local_forward, write_tunnel_request}

-- A client's connection: what each read of its socket gives, one after the other, before the client
-- closes or, where there is a fault, every further read fails with it; what a `BufReader` holds of it; what was sent to the client, and how much it still takes;
-- and the tunnel's stream, once it is open.
pub record Client : Type 0 where
  pub buffer : Bytes
  pub reads : List Bytes
  pub fault : Option Text
  pub sent : Bytes
  pub room : ℕ
  pub tunnel : Option Stream

pub data ProxyError : Type 0 where
  invalid_utf8 send_failed : ProxyError
  -- an I/O error of the client's socket
  read_failed : Text → ProxyError
  invalid_connect_request : Text → ProxyError
  tunnel_broken : Text → ProxyError
  request_failed : IoError → ProxyError
  negotiation_failed : Text → ProxyError
  only_connect_supported : ProxyError
  -- not an error of the code: the fuel of the header loop
  out_of_fuel : ProxyError

abbrev pub Proxy : Type 0 → Type 0
Proxy A = Exec Client ProxyError A

abbrev pub Unread : Type 0
Unread = Bytes × List Bytes

abbrev pub prepend : ℕ → Bytes × Unread → Bytes × Unread
prepend c (line, unread) = (c ∷ line, unread)

-- The bytes up to the next line feed, which is the last of them, or up to the end of the stream; and
-- what the reader then holds and has still to read. A read that gives nothing is the end.
pub read_until : List Bytes → Bytes → Bytes × Unread
read_until reads (c ∷ buffer) = elim (c == b'\n') [
  | true ↦ (c ∷ [], (buffer, reads))
  | false ↦ prepend c (read_until reads buffer)
]
read_until [] [] = ([], ([], []))
read_until ([] ∷ reads) [] = ([], ([], reads))
read_until ((c ∷ chunk) ∷ reads) [] = elim (c == b'\n') [
  | true ↦ (c ∷ [], (chunk, reads))
  | false ↦ prepend c (read_until reads chunk)
]

-- Whether `read_until` gets to a read that is not there before it has seen a line feed.
pub runs_out : List Bytes → Bytes → Bool
runs_out reads (c ∷ buffer) = elim (c == b'\n') [ true ↦ false | false ↦ runs_out reads buffer ]
runs_out [] [] = true
runs_out ([] ∷ reads) [] = false
runs_out ((c ∷ chunk) ∷ reads) [] = elim (c == b'\n') [
  | true ↦ false
  | false ↦ runs_out reads chunk
]

-- The fault that ends a line.
abbrev pub fault_in : Bool → Option Text → Option Text
fault_in true fault = fault
fault_in false fault = none

abbrev pub decoded : Option Text → Result ProxyError Text
decoded none = err invalid_utf8
decoded (some line) = ok line

abbrev pub line_of : Option Text → Option Text → Result ProxyError Text
line_of none line = decoded line
line_of (some e) line = err (read_failed e)

-- `reader.read_line(&mut line)`
unfoldable pub read_line : Proxy Text
unfolding read_until runs_out
read_line c =
    let (line, (buffer, reads)) = read_until c.reads c.buffer in
    (
      line_of (fault_in (runs_out c.reads c.buffer) c.fault) (from_utf8 line),
      record c { buffer = buffer; reads = reads },
    )

-- `if done { break; }`, and the rounds that follow.
abbrev pub unless : Bool → Proxy (Unit {0}) → Proxy (Unit {0})
unless true rest = pure tt
unless false rest = rest

-- The loop over the headers.
pub skip_headers : ℕ → Proxy (Unit {0})
skip_headers zero = raise out_of_fuel
skip_headers (suc fuel) = do line ← read_line; unless (is_empty (trim line)) (skip_headers fuel)

abbrev pub total : List Bytes → ℕ
total [] = 0
total (chunk ∷ reads) = length chunk + total reads

-- As many rounds as there are bytes, and one more.
unfoldable pub skip_all_headers : Proxy (Unit {0})
unfolding skip_headers
skip_all_headers c = skip_headers (suc (length c.buffer + total c.reads)) c

-- The `BufReader` is dropped with what it holds.
abbrev pub drop_reader : Proxy (Unit {0})
drop_reader c = (ok tt, record c { buffer = [] })

-- `socket.write_all(…)`
unfoldable pub send : Bytes → Proxy (Unit {0})
send bytes c =
    if leb (length bytes) c.room
    then (ok tt, record c { sent = c.sent ++ bytes; room = c.room - length bytes })
    else (err send_failed, record c { sent = c.sent ++ take c.room bytes; room = 0 })

-- The target of a request line of at least three words, of which the first is the method.
abbrev pub connect_target : List Text → Option Text
connect_target (method ∷ target ∷ version ∷ more) =
    if text_eq method (codes "CONNECT") then some target else none
connect_target words = none

abbrev pub bad_request : Bytes
bad_request = codes "HTTP/1.1 400 Bad Request\r\n\r\n"

abbrev pub established : Bytes
established = codes "HTTP/1.1 200 Connection established\r\n\r\n"

abbrev pub target_or_refuse : Text → Option Text → Proxy Text
target_or_refuse first_line (some target) = pure target
target_or_refuse first_line none = do
  drop_reader
  send bad_request
  raise (invalid_connect_request first_line)

module _ (codec : Codec TunnelRequest) (opened : Result Text Stream) where
  -- `open_stream`, and the request on the stream.
  unfoldable pub request_tunnel : Text → Proxy (Unit {0})
  request_tunnel target c = elim opened [
    | err e ↦ (err (tunnel_broken e), c)
    | ok stream ↦
        match_result (write_tunnel_request codec (local_forward target) stream)
          (λ u s. (ok tt, record c { tunnel = some s }))
          (λ e s. (err (request_failed e), record c { tunnel = some s }))
  ]

  -- If it succeeds, the tunnel's stream and what the socket still gives are copied to each other.
  unfoldable pub handle_http_connect : Proxy (Unit {0})
  handle_http_connect = do
    first_line ← read_line
    target ← target_or_refuse first_line (connect_target (split_whitespace first_line))
    skip_all_headers
    drop_reader
    request_tunnel target
    send established

pub data Socks5Command : Type 0 where
  tcp_connect tcp_bind udp_associate : Socks5Command

-- The server side of the crate fast_socks5: the negotiation without authentication up to the client's
-- command and its target's text, and the reply of success.
pub record Socks5 : Type 0 where
  pub read_command : Client → Result Text (Socks5Command × Text) × Client
  pub reply_success : Client → Result Text (Unit {0}) × Client

module _ (socks5 : Socks5) (codec : Codec TunnelRequest) (opened : Result Text Stream) where
  abbrev pub only_connect : Socks5Command → Proxy (Unit {0})
  only_connect tcp_connect = pure tt
  only_connect cmd = raise only_connect_supported

  unfoldable pub handle_socks5_client : Proxy (Unit {0})
  handle_socks5_client = do
    (cmd, target) ← map_error negotiation_failed socks5.read_command
    only_connect cmd
    request_tunnel codec opened target
    map_error negotiation_failed socks5.reply_success

  -- The first byte that waits; a buffer that nothing is read into holds 0.
  abbrev pub peek : Client → Result Text ℕ
  peek c = elim c.reads [
    | [] ↦ elim c.fault [ none ↦ ok 0 | some e ↦ err e ]
    | chunk ∷ reads ↦ elim chunk [ [] ↦ ok 0 | b ∷ bytes ↦ ok b ]
  ]

  -- Another protocol is logged, and the connection is closed; so is a byte that cannot be read.
  abbrev pub serve_by : Result Text ℕ → Proxy (Unit {0})
  serve_by (err e) = pure tt
  serve_by (ok first) =
      if first == 0x05
      then handle_socks5_client
      else if first == b'C'
      then handle_http_connect codec opened
      else pure tt

  -- The task of one connection.
  unfoldable pub proxy_connection : Proxy (Unit {0})
  proxy_connection c = serve_by (peek c) c
