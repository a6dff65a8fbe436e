-- ===== src/Proxy/Socks.antt =====
-- For whom a local proxy asks the other peer to connect.
use sape.Prelude.{
  ℕ, ap, suc, ◌+◌, ◌≡◌, refl, sym, ◌∙◌, ◌⊎◌, inl, inr, none, some, [], ◌==◌, ==_iff, Bool-cases,
  length,
}
use sape.Prelude.Result.{Result, ok, err}
use sape.Prelude.Exec.{continue, match_result, map_error, ◌>>=◌, ◌>>◌}
use sape.Text.{Text}
use sape.Text.Utf8.{split_whitespace}
use sape.Wire.{Stream, IoError, Codec}
use sape.Tunnel.{TunnelRequest, local_forward, write_tunnel_request}
use sape.Proxy.Words.{AskFor, connect_target_iff}
use sape.Proxy.{
  Proxy, Client, ProxyError, read_line, skip_all_headers, total, connect_target, send,
  request_tunnel, handle_http_connect, drop_reader, target_or_refuse, established, request_failed,
  Socks5, Socks5Command, tcp_connect, tcp_bind, udp_associate, only_connect, handle_socks5_client,
  negotiation_failed, peek, serve_by, proxy_connection,
}
use sape.Proxy.Untouched.{
  Tells, nothing-Tells, continue-Tells, continue-keeps, read_line-keeps, send-keeps,
  skip_headers-keeps, target_or_refuse-keeps, target_or_refuse-some, map_error-keeps, map_error-ok,
}

-- The negotiation is with the client alone.
pub record IsSocks5 (socks5 : Socks5) : Type 0 where
  pub command_alone : (c : Client) → (socks5.read_command c).1.tunnel ≡ c.tunnel
  pub reply_alone : (c : Client) → (socks5.reply_success c).1.tunnel ≡ c.tunnel

module _ (codec : Codec TunnelRequest) (opened : Result Text Stream) where
  -- The stream is the one that was opened, with the request for this target sent on it, as far as the
  -- stream carried it.
  abbrev pub Requests : Text → Stream → Type 0
  Requests target s =
      (stream : Stream) × ((opened ≡ ok stream)
        × (s ≡ (write_tunnel_request codec (local_forward target) stream).1))

  request_tunnel-Tells :
      (target : Text) (c : Client)
      → c.tunnel ≡ none
      → Tells (Requests target) (request_tunnel codec opened target c).1.tunnel
  unfolding request_tunnel
  request_tunnel-Tells target c untouched =
      elim opened
          as (λ o.
            opened ≡ o → Tells (Requests target) (request_tunnel codec o target c).1.tunnel) [
              | err e ↦ λ o. nothing-Tells (Requests target) c.tunnel untouched
              | ok stream ↦ λ o.
                  written stream o (write_tunnel_request codec (local_forward target) stream) refl
            ]
        refl
    where
      written :
          (stream : Stream)
          → opened ≡ ok stream
          → (r : Result IoError (Unit {0}) × Stream)
          → write_tunnel_request codec (local_forward target) stream ≡ r
          → Tells
              (Requests target)
              (match_result {C = Result ProxyError (Unit {0}) × Client} r
                (λ u s. (ok tt, record c { tunnel = some s }))
                (λ e s. (err (request_failed e), record c { tunnel = some s }))).1.tunnel
      written stream o (ok u, s) e = λ s' h. (stream, (o, cc (e, h)))
      written stream o (err u, s) e = λ s' h. (stream, (o, cc (e, h)))

  abbrev Serves : (Text → Type 0) → Stream → Type 0
  Serves Asked s = (target : Text) × (Asked target × Requests target s)

  -- The request for what was asked, and then whatever leaves the stream as it is.
  request_then-Tells :
      (Asked : Text → Type 0) (target : Text) (c : Client)
      (f : Unit {0} → Client → Result ProxyError (Unit {0}) × Client)
      → Asked target
      → c.tunnel ≡ none
      → ((u : Unit {0}) (d : Client) → (f u d).1.tunnel ≡ d.tunnel)
      → Tells (Serves Asked) (continue (request_tunnel codec opened target c) f).1.tunnel
  request_then-Tells Asked target c f asked untouched kept s h =
      let r = request_tunnel codec opened target c in
      (
        target,
        (asked, request_tunnel-Tells target c untouched s (sym (continue-keeps r f kept) ∙ h)),
      )

  -- The words of the first line are CONNECT, the target, a version and perhaps more.
  abbrev pub HttpAsks : Client → Text → Type 0
  HttpAsks c target =
      (line : Text) × ((d : Client) × ((read_line c ≡ (ok line, d))
          × AskFor (split_whitespace line) target))

  handle_http_connect-Tells :
      (c : Client)
      → c.tunnel ≡ none
      → Tells (Serves (HttpAsks c)) (handle_http_connect codec opened c).1.tunnel
  unfolding handle_http_connect skip_all_headers
  handle_http_connect-Tells c untouched =
      continue-Tells (Serves (HttpAsks c)) (read_line c) connect (read_line-keeps c ∙ untouched)
        (λ line c1 read none1.
          continue-Tells (Serves (HttpAsks c))
            (target_or_refuse line (connect_target (split_whitespace line)) c1) tunnelled
            (target_or_refuse-keeps line (connect_target (split_whitespace line)) c1 ∙ none1)
            (λ target c2 taken none2.
              continue-Tells (Serves (HttpAsks c)) (skip_all_headers c2) (requested target)
                (skip_headers-keeps (suc (length c2.buffer + total c2.reads)) c2 ∙ none2)
                (λ u c3 skipped none3.
                  request_then-Tells (HttpAsks c) target (record c3 { buffer = [] })
                    (λ v. send established)
                    (
                      line,
                      (
                        c1,
                        (
                          read,
                          (connect_target_iff (split_whitespace line) target).0 (
                              target_or_refuse-some line (connect_target (split_whitespace line)) c1
                                target c2 taken),
                        ),
                      ),
                    )
                    none3 (λ v d. send-keeps established d))))
    where
      requested : Text → Unit {0} → Proxy (Unit {0})
      requested target u = drop_reader >> (request_tunnel codec opened target >> send established)

      tunnelled : Text → Proxy (Unit {0})
      tunnelled target = skip_all_headers >>= requested target

      connect : Text → Proxy (Unit {0})
      connect line = target_or_refuse line (connect_target (split_whitespace line)) >>= tunnelled

module _ (socks5 : Socks5) (alone : IsSocks5 socks5) (codec : Codec TunnelRequest)
    (opened : Result Text Stream) where
  -- The negotiation ends with the command to connect to the target.
  abbrev pub SocksAsks : Client → Text → Type 0
  SocksAsks c target = (d : Client) × (socks5.read_command c ≡ (ok (tcp_connect, target), d))

  commanded-Tells :
      (c d : Client) (cmd : Socks5Command) (target : Text)
      → socks5.read_command c ≡ (ok (cmd, target), d)
      → d.tunnel ≡ none
      → Tells
          (Serves codec opened (SocksAsks c))
          ((only_connect socks5 codec opened cmd
              >> (request_tunnel codec opened target
                  >> map_error negotiation_failed socks5.reply_success))
            d).1.tunnel
  commanded-Tells c d tcp_connect target read untouched =
      request_then-Tells codec opened (SocksAsks c) target d
        (λ u. map_error negotiation_failed socks5.reply_success) (d, read) untouched
        (λ u e. map_error-keeps (socks5.reply_success e) ∙ alone.reply_alone e)
  commanded-Tells c d tcp_bind target read untouched =
      nothing-Tells (Serves codec opened (SocksAsks c)) d.tunnel untouched
  commanded-Tells c d udp_associate target read untouched =
      nothing-Tells (Serves codec opened (SocksAsks c)) d.tunnel untouched

  handle_socks5_client-Tells :
      (c : Client)
      → c.tunnel ≡ none
      → Tells
          (Serves codec opened (SocksAsks c))
          (handle_socks5_client socks5 codec opened c).1.tunnel
  unfolding handle_socks5_client
  handle_socks5_client-Tells c untouched =
      continue-Tells (Serves codec opened (SocksAsks c))
        (map_error negotiation_failed socks5.read_command c)
        (λ (cmd, target).
          only_connect socks5 codec opened cmd
          >> (request_tunnel codec opened target
              >> map_error negotiation_failed socks5.reply_success))
        (map_error-keeps (socks5.read_command c) ∙ alone.command_alone c ∙ untouched)
        (λ (cmd, target) d read.
          commanded-Tells c d cmd target
            (map_error-ok (socks5.read_command c) (cmd, target) d read))

  -- What the client asks for, in the protocol that its first byte tells.
  abbrev pub Asks : Client → Text → Type 0
  Asks c target =
      ((peek socks5 codec opened c ≡ ok 0x05) × SocksAsks c target)
      ⊎ ((peek socks5 codec opened c ≡ ok b'C') × HttpAsks codec opened c target)

  served-Asks :
      (c : Client) (s : Stream) (first : Result Text ℕ)
      → c.tunnel ≡ none
      → peek socks5 codec opened c ≡ first
      → (serve_by socks5 codec opened first c).1.tunnel ≡ some s
      → (target : Text) × (Asks c target × Requests codec opened target s)
  served-Asks c s (err e) untouched is_first h =
      absurd (nothing-Tells (λ s'. ⊥) c.tunnel untouched s h)
  served-Asks c s (ok first) untouched is_first h = elim (Bool-cases (first == 0x05)) [
    | inl five ↦
        let (target, (asks, requests)) = handle_socks5_client-Tells c untouched s (rw five at h) in
        (target, (inl (is_first ∙ ap ok ((==_iff first 0x05).0 five), asks), requests))
    | inr other ↦ elim (Bool-cases (first == b'C')) [
      | inl letter ↦
          let (target, (asks, requests)) =
            handle_http_connect-Tells codec opened c untouched s (rw (other, letter) at h) in
          (target, (inr (is_first ∙ ap ok ((==_iff first b'C').0 letter), asks), requests))
      | inr unknown ↦
          absurd (nothing-Tells (λ s'. ⊥) c.tunnel untouched s (rw (other, unknown) at h))
    ]
  ]

  -- When a connection has ended with a tunnel stream, the stream was opened for it and carries the
  -- request for a target that the client asked for: in a SOCKS5 command to connect, if its first byte
  -- was 5, or in an HTTP CONNECT line, if it was a C. Nothing else opens a stream, and no other
  -- request is sent. The negotiation of SOCKS5 must not itself touch the stream.
  pub proxy_connection-Asks :
      (c : Client) (s : Stream)
      → c.tunnel ≡ none
      → (proxy_connection socks5 codec opened c).1.tunnel ≡ some s
      → (target : Text) × (Asks c target × Requests codec opened target s)
  unfolding proxy_connection
  proxy_connection-Asks c s untouched h =
      served-Asks c s (peek socks5 codec opened c) untouched refl h
