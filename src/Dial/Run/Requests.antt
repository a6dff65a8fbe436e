-- ===== src/Dial/Run/Requests.antt =====
-- What a dialler asks of the other peer, and what it opens to its own side.
use sape.Prelude.{
  ℕ, ◌≡◌, refl, sym, ap, ◌⊎◌, inl, inr, Bool, Option, none, some, List, [], ◌∷◌, All,
}
use sape.Prelude.Result.{Result, ok, err, Result-cases}
use sape.Prelude.Exec.{match_result}
use sape.Text.{Text}
use sape.Wire.{Bytes, Stream, IoError, Codec}
use sape.Tunnel.{TunnelRequest, netcat, local_forward, write_tunnel_request}
use sape.Forward.{
  bridged, send_failed, SocketAddr, ReverseError, local_connection, forward_connection,
  request_reverse_forward, run_incoming_reverse_handler, ask_reverse,
}
use sape.Proxy.{Client}
use sape.Proxy.Socks.{IsSocks5, Asks, proxy_connection-Asks}
use sape.Dial.{DialMode, netcat_mode, local_forward_mode, reverse_forward_mode, socks5_mode}
use sape.Dial.Run.{
  Meeting, Running, accept_loop, loopback, local_task, proxy_task, run_local_forward, run_socks5,
  run_netcat_mode, run_reverse_mode, run_dial_mode, only, listening, returned, request_failed,
  reverse_failed, incoming_ended,
}

-- The port of this machine that a mode is to open.
abbrev pub local_port : DialMode → Option ℕ
local_port (local_forward_mode bind_port target) = some bind_port
local_port (socks5_mode bind_port) = some bind_port
local_port mode = none

abbrev pub IsLoopback : Option ℕ → SocketAddr → Type 0
IsLoopback none addr = ⊥
IsLoopback (some bind_port) addr = addr ≡ loopback bind_port

-- The streams of a dialler's own session: none, if none was opened, and else one.
abbrev pub Own :
    (Result Text Stream → Option Stream → Type 0)
    → Result Text Stream
    → List (Option Stream)
    → Type 0
Own P opened [] = (e : Text) × (opened ≡ err e)
Own P opened (s ∷ []) = P opened s
Own P opened (s ∷ s' ∷ streams) = ⊥

abbrev pub Accepted : Type 0
Accepted = Result Text (Client × Result Text Stream)

-- The streams of the connections, one for each that is accepted, in order, up to the first that
-- cannot be accepted.
abbrev pub Tasks :
    (Client → Result Text Stream → Option Stream → Type 0)
    → List Accepted
    → List (Option Stream)
    → Type 0
Tasks P [] [] = Unit
Tasks P [] (s ∷ streams) = ⊥
Tasks P (err e ∷ accepted) [] = Unit
Tasks P (err e ∷ accepted) (s ∷ streams) = ⊥
Tasks P (ok connection ∷ accepted) [] = ⊥
Tasks P (ok (client, opened) ∷ accepted) (s ∷ streams) =
    P client opened s × Tasks P accepted streams

-- No connection has a tunnel of its own before it is served.
abbrev pub AreNew : List Accepted → Type 0
AreNew [] = Unit
AreNew (err e ∷ accepted) = AreNew accepted
AreNew (ok (client, opened) ∷ accepted) = (client.tunnel ≡ none) × AreNew accepted

accept_loop-Tasks :
    (accepted : List Accepted) (task : Client × Result Text Stream → Option Stream)
    (P : Client → Result Text Stream → Option Stream → Type 0)
    → AreNew accepted
    → ((client : Client) (opened : Result Text Stream)
        → client.tunnel ≡ none
        → P client opened (task (client, opened)))
    → Tasks P accepted (accept_loop task accepted).1
unfolding accept_loop
accept_loop-Tasks [] task P new each = tt
accept_loop-Tasks (err e ∷ accepted) task P new each = tt
accept_loop-Tasks (ok (client, opened) ∷ accepted) task P new each =
    (each client opened new.0, accept_loop-Tasks accepted task P new.1 each)

module _ (codec : Codec TunnelRequest) where
  -- The stream is the one that was opened, with this request written on it as far as it got, and
  -- nothing else.
  abbrev pub Sent : TunnelRequest → Result Text Stream → Stream → Type 0
  Sent request opened s =
      (start : Stream) × ((opened ≡ ok start) × (s ≡ (write_tunnel_request codec request start).1))

  -- There is no stream only if none was opened.
  abbrev pub Carries : TunnelRequest → Result Text Stream → Option Stream → Type 0
  Carries request opened none = (e : Text) × (opened ≡ err e)
  Carries request opened (some s) = Sent request opened s

  -- The same of the request for a reverse forward, whose answer is read from the stream.
  abbrev pub AsksReverse : DialMode → Result Text Stream → Option Stream → Type 0
  AsksReverse (reverse_forward_mode bind_port target gateway_ports) opened none =
      (e : Text) × (opened ≡ err e)
  AsksReverse (reverse_forward_mode bind_port target gateway_ports) opened (some s) =
      (start : Stream) × ((opened ≡ ok start)
        × (s ≡ (ask_reverse codec bind_port target gateway_ports start).1))
  AsksReverse mode opened s = ⊥

  written-Carries :
      {A : Type 0} (request : TunnelRequest) (start : Stream)
      (r : Result IoError (Unit {0}) × Stream) (ok_of : A) (err_of : IoError → A)
      → write_tunnel_request codec request start ≡ r
      → Carries request
          (ok start)
          (match_result {C = A × Option Stream} r
            (λ u s. (ok_of, some s))
            (λ e s. (err_of e, some s))).1
  written-Carries request start (ok u, s) ok_of err_of e = (start, (refl, ap (λ r. r.1) (sym e)))
  written-Carries request start (err x, s) ok_of err_of e = (start, (refl, ap (λ r. r.1) (sym e)))

  local-Carries :
      (target : Text) (opened : Result Text Stream)
      → Carries (local_forward target) opened (local_connection codec target opened).1
  unfolding local_connection forward_connection
  local-Carries target (err e) = (e, refl)
  local-Carries target (ok s) =
      written-Carries (local_forward target) s (write_tunnel_request codec (local_forward target) s)
        (bridged ∷ []) (λ e. send_failed e ∷ []) refl

  netcat-Carries :
      (meeting : Meeting) (opened : Result Text Stream)
      → Own (Carries netcat) opened (run_netcat_mode codec meeting opened).streams
        × ((run_netcat_mode codec meeting opened).bound ≡ [])
  netcat-Carries meeting (err e) = ((e, refl), refl)
  netcat-Carries meeting (ok start) = written (write_tunnel_request codec netcat start) refl
    where
      written :
          (r : Result IoError (Unit {0}) × Stream)
          → write_tunnel_request codec netcat start ≡ r
          → Own
              (Carries netcat)
              (ok start)
              (match_result {C = Running} r
                (λ u s. only returned (some s ∷ []))
                (λ e s. only (request_failed e) (some s ∷ []))).streams
            × ((match_result {C = Running} r
                  (λ u s. only returned (some s ∷ []))
                  (λ e s. only (request_failed e) (some s ∷ []))).bound
                ≡ [])
      written (ok u, s) e = ((start, (refl, ap (λ r. r.1) (sym e))), refl)
      written (err x, s) e = ((start, (refl, ap (λ r. r.1) (sym e))), refl)

  request_reverse-Asks :
      (bind_port : ℕ) (target : Text) (gateway_ports : Bool) (opened : Result Text Stream)
      → AsksReverse
          (reverse_forward_mode bind_port target gateway_ports)
          opened
          (request_reverse_forward codec opened bind_port target gateway_ports).1
  unfolding request_reverse_forward
  request_reverse-Asks bind_port target gateway_ports (err e) = (e, refl)
  request_reverse-Asks bind_port target gateway_ports (ok s) = (s, (refl, refl))

  reverse-Own :
      (P : Result Text Stream → Option Stream → Type 0) (opened : Result Text Stream)
      (after : Option Stream → Running) (r : Result ReverseError (Unit {0}) × Option Stream)
      → P opened r.1
      → ((s : Option Stream) → ((after s).streams ≡ s ∷ []) × ((after s).bound ≡ []))
      → (run : Running)
      → run ≡ match_result r (λ u s. after s) (λ e s. only (reverse_failed e) (s ∷ []))
      → Own P opened run.streams × (run.bound ≡ [])
  reverse-Own P opened after (ok u, s) sent shape run same =
      rw same (rw ((shape s).0) sent, (shape s).1)
  reverse-Own P opened after (err e, s) sent shape run same = rw same (sent, refl)

  module _ (meeting : Meeting) (alone : IsSocks5 meeting.socks5) where
    -- A proxy's stream carries the request for a target that its client asked for; a client that does
    -- not get that far has none.
    abbrev pub Proxies : Client → Result Text Stream → Option Stream → Type 0
    Proxies client opened none = Unit
    Proxies client opened (some s) =
        (target : Text) × (Asks meeting.socks5 alone codec opened client target
          × Sent (local_forward target) opened s)

    -- A loop on a socket of the local host, which is not there if it cannot be bound.
    abbrev pub Loop :
        (Client → Result Text Stream → Option Stream → Type 0) → ℕ → List (Option Stream) → Type 0
    Loop P bind_port streams =
        ((streams ≡ [])
          × ((cause : Bytes) × (meeting.machine.bind (loopback bind_port) ≡ err cause)))
        ⊎ Tasks P meeting.accepted streams

    -- The streams of a dialler in this mode.
    abbrev pub AreOf : DialMode → List (Option Stream) → Type 0
    AreOf netcat_mode streams = Own (Carries netcat) meeting.opened streams
    AreOf (local_forward_mode bind_port target) streams =
        Loop (λ client. Carries (local_forward target)) bind_port streams
    AreOf (reverse_forward_mode bind_port target gateway_ports) streams =
        Own (AsksReverse (reverse_forward_mode bind_port target gateway_ports)) meeting.opened
          streams
    AreOf (socks5_mode bind_port) streams = Loop Proxies bind_port streams

    abbrev Keeps : DialMode → Running → Type 0
    Keeps mode run = AreOf mode run.streams × All (IsLoopback (local_port mode)) run.bound

    listening-Keeps :
        (P : Client → Result Text Stream → Option Stream → Type 0) (bind_port : ℕ)
        (task : Client × Result Text Stream → Option Stream)
        → AreNew meeting.accepted
        → ((client : Client) (opened : Result Text Stream)
            → client.tunnel ≡ none
            → P client opened (task (client, opened)))
        → Loop P bind_port (listening codec meeting bind_port task).streams
          × All (IsLoopback (some bind_port)) (listening codec meeting bind_port task).bound
    listening-Keeps P bind_port task new each =
        elim (Result-cases (meeting.machine.bind (loopback bind_port))) [
          | inl (u, bound) ↦
              rw (bound, listening)
                (inr (accept_loop-Tasks meeting.accepted task P new each), (refl, tt))
          | inr (cause, failed) ↦ rw (failed, listening) (inl (refl, (cause, refl)), tt)
        ]

    Proxies-of :
        (client : Client) (opened : Result Text Stream) (o : Option Stream)
        → client.tunnel ≡ none
        → proxy_task codec meeting (client, opened) ≡ o
        → Proxies client opened o
    Proxies-of client opened none fresh h = tt
    Proxies-of client opened (some s) fresh h =
        proxy_connection-Asks meeting.socks5 alone codec opened client s fresh h

    -- A dialler that is connected asks of the other peer only what its mode is for, and opens itself to
    -- this machine only: its streams are those of its mode, and the only socket that it binds is the
    -- local host's with the mode's port, and none in the other modes. A connection of a client is new,
    -- and the SOCKS5 negotiation does not touch the stream.
    pub run_dial_mode-AreOf :
        (mode : DialMode)
        → AreNew meeting.accepted
        → AreOf mode (run_dial_mode codec meeting mode).streams
          × All (IsLoopback (local_port mode)) (run_dial_mode codec meeting mode).bound
    unfolding run_dial_mode run_local_forward run_socks5
    run_dial_mode-AreOf netcat_mode new =
        let (sent, none_bound) = netcat-Carries meeting meeting.opened in (sent, rw none_bound tt)
    run_dial_mode-AreOf (local_forward_mode bind_port target) new =
        listening-Keeps (λ client. Carries (local_forward target)) bind_port
          (local_task codec meeting target) new (λ client opened fresh. local-Carries target opened)
    run_dial_mode-AreOf (reverse_forward_mode bind_port target gateway_ports) new =
        let after : Option Stream → Running = λ s. record {
          ending = incoming_ended;
          bound = [];
          streams = s ∷ [];
          effects = run_incoming_reverse_handler codec meeting.machine meeting.incoming;
        } in
        let (sent, none_bound) =
          reverse-Own (AsksReverse (reverse_forward_mode bind_port target gateway_ports))
            meeting.opened after
            (request_reverse_forward codec meeting.opened bind_port target gateway_ports)
            (request_reverse-Asks bind_port target gateway_ports meeting.opened) (λ s. (refl, refl))
            (run_reverse_mode codec meeting bind_port target gateway_ports) refl in
        (sent, rw none_bound tt)
    run_dial_mode-AreOf (socks5_mode bind_port) new =
        listening-Keeps Proxies bind_port (proxy_task codec meeting) new (λ client opened fresh.
          Proxies-of client opened (proxy_task codec meeting (client, opened)) fresh refl)
