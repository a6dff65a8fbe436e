-- ===== src/Proxy/Tests.antt =====
-- Clients of a local proxy that send these bytes.
use sape.Prelude.{
  ℕ, ◌≡◌, refl, ◌≢◌, inl, inr, Bool, false, ◌||◌, none, some, List, [], ◌∷◌, ◌++◌, arith, ◌==◌,
  Bool-cases,
}
use sape.Prelude.Result.{ok, err}
use sape.Text.{codes, Text, Lacks}
use sape.Text.Utf8.{from_utf8, split_whitespace}
use sape.Wire.{Bytes, Stream, write_frame, write_all, u32_to_be_bytes}
use sape.Wire.Frame.{framed}
use sape.Tunnel.Sample.{sample}
use sape.Proxy.{
  Client, handle_http_connect, bad_request, out_of_fuel, read_failed, read_line,
  invalid_connect_request, handle_socks5_client, Socks5, tcp_connect, proxy_connection,
  request_tunnel,
}
use sape.Proxy.Words.{AskFor}
use sape.Proxy.Reader.{IsUnread, advanced}
use sape.Proxy.Http.{IsLine}
use sape.Proxy.Total.{handle_http_connect-ends, handle_http_connect-refuses}
use sape.Proxy.Socks.{IsSocks5}

abbrev request_line : Bytes
request_line = codes "CONNECT h:1 HTTP/1.1\r"

abbrev request : Bytes
request = codes "CONNECT h:1 HTTP/1.1\r\nHost: h\r\n\r\n"

-- The request in two reads, the second of which brings more; and a third read.
abbrev pieces : List Bytes
pieces = codes "CONNECT h:1 HTTP/1.1\r" ∷ codes "\nHost: h\r\n\r\nearly" ∷ codes "later" ∷ []

abbrev http_client : Client
http_client = record {
  buffer = [];
  reads = pieces;
  fault = none;
  sent = [];
  room = 100;
  tunnel = none;
}

abbrev stream : Stream
stream = record { incoming = []; outgoing = []; room = 100 }

abbrev has : ℕ → Text → Bool
has b [] = false
has b (c ∷ s) = c == b || has b s

has-Lacks : (b : ℕ) (s : Text) → has b s ≡ false → Lacks b s
has-Lacks b [] h = tt
has-Lacks b (c ∷ s) h = elim (Bool-cases (c == b)) [
  | inl same ↦ absurd (cc (rw same at h))
  | inr other ↦ (other, has-Lacks b s (rw other at h))
]

handle_http_connect-ends_example :
    (handle_http_connect sample (ok stream) http_client).0 ≢ err out_of_fuel
handle_http_connect-ends_example = handle_http_connect-ends sample (ok stream) http_client

-- A request to get a page.
abbrev get : Bytes
get = codes "GET / HTTP/1.1"

abbrev get_client : Client
get_client = record http_client { reads = codes "GET / HTTP/1.1\nHost: h\n\n" ∷ [] }

get_client-IsUnread : IsUnread get_client (get ++ b'\n' ∷ codes "Host: h\n\n")
get_client-IsUnread = record { flat = refl; full = (λ e. cc e, tt) }

get-IsLine : IsLine get (codes "GET / HTTP/1.1\n")
unfolding from_utf8
get-IsLine = (has-Lacks b'\n' get refl, refl)

get_asks : ¬ ((target : Text) × AskFor (split_whitespace (codes "GET / HTTP/1.1\n")) target)
unfolding split_whitespace
get_asks (target, (version, (more, e))) = cc

handle_http_connect-refuses_example : handle_http_connect sample (ok stream) get_client ≡ (
  err (invalid_connect_request (codes "GET / HTTP/1.1\n")),
  record (advanced 15 get_client) { buffer = []; sent = bad_request; room = 72 },
)
handle_http_connect-refuses_example =
    handle_http_connect-refuses sample (ok stream) get_client get (codes "Host: h\n\n")
      (codes "GET / HTTP/1.1\n") get_client-IsUnread get-IsLine get_asks (omega arith)

-- A negotiation that takes everything and gives the same command.
abbrev socks5 : Socks5
socks5 = record {
  read_command = λ c. (ok (tcp_connect, codes "h:1"), record c { reads = [] });
  reply_success = λ c. (ok tt, c);
}

socks5-IsSocks5 : IsSocks5 socks5
socks5-IsSocks5 = record { command_alone = λ c. refl; reply_alone = λ c. refl }

abbrev socks_client : Client
socks_client = record http_client { reads = (5 ∷ 1 ∷ 0 ∷ []) ∷ [] }

abbrev requested : Stream
requested = record stream { outgoing = framed (1 ∷ codes "h:1"); room = 92 }

socks_client-requested :
    (proxy_connection socks5 sample (ok stream) socks_client).1.tunnel ≡ some requested
unfolding proxy_connection handle_socks5_client request_tunnel write_frame write_all u32_to_be_bytes
socks_client-requested = refl

-- The socket of this client fails within the first line.
abbrev failing_client : Client
failing_client = record http_client { reads = codes "CONNECT h" ∷ []; fault = some (codes "reset") }

line_fails :
    (handle_http_connect sample (ok stream) failing_client).0 ≡ err (read_failed (codes "reset"))
unfolding handle_http_connect read_line from_utf8
line_fails = refl

-- And of this one before it has sent anything.
peek_fails :
    proxy_connection socks5 sample (ok stream) (record failing_client { reads = [] })
    ≡ (ok tt, record failing_client { reads = [] })
unfolding proxy_connection
peek_fails = refl
