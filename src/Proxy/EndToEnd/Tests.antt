-- ===== src/Proxy/EndToEnd/Tests.antt =====
-- An HTTP client, whose request reaches a listener.
use sape.Prelude.{none, [], ◌∷◌}
use sape.Prelude.Result.{Result, ok}
use sape.Text.{Text, codes}
use sape.Wire.{Bytes, Stream}
use sape.Wire.Frame.{framed}
use sape.Forward.{Machine}
use sape.Proxy.{Client, Socks5, tcp_connect}

abbrev socks5 : Socks5
socks5 = record {
  read_command = λ c. (ok (tcp_connect, codes "h:1"), record c { reads = [] });
  reply_success = λ c. (ok tt, c);
}

abbrev client : Client
client = record {
  buffer = [];
  reads = codes "CONNECT h:1 HTTP/1.1\r\n" ∷ codes "\r\n" ∷ [];
  fault = none;
  sent = [];
  room = 100;
  tunnel = none;
}

abbrev stream : Bytes → Stream
stream bytes = record { incoming = bytes; outgoing = []; room = 100 }

abbrev requested : Stream
requested = record { incoming = []; outgoing = framed (1 ∷ codes "h:1"); room = 92 }

abbrev request_line : Text
request_line = codes "CONNECT h:1 HTTP/1.1\r\n"

abbrev machine : Machine
machine = record { bind = λ addr. ok tt; connect = λ target. ok tt }
