-- ===== src/Interactive/Sound.antt =====
-- The commands that the interactive mode makes.
use sape.Prelude.{◌≤◌, ◌<◌, ◌≡◌, refl, sym, ap, ◌∙◌, inl, inr, false, Option, none, some, arith}
use sape.Prelude.Result.{ok}
use sape.Text.{codes, trim}
use sape.Libp2p.{TextForms}
use sape.Address.{Multiaddr}
use sape.Target.{DialTarget, mdns, relay_circuit, pairing_code, ForwardSpec, forward_spec_from_str}
use sape.Cli.{dial_command}
use sape.Terminal.{valid, Prompts, IsInquire}
use sape.Terminal.Ensures.{
  Ensures, Ensures-pure, Ensures-bind, Ensures-mono, expect-Ensures, ask-Ensures, choose-Ensures,
  confirm-Ensures,
}
use sape.Interactive.{
  mode_at, Mode, relay_mode, listen_mode, dial_mode, ListenConn, via_relay, lan_only,
  listen_conn_at, DialConn, by_circuit, by_mdns, by_pairing, dial_conn_at, TunnelMode,
  netcat_tunnel, local_tunnel, reverse_tunnel, socks_tunnel, tunnel_mode_at, required, valid_port,
  any_text, nonempty, valid_peers, peer_texts, run_relay, listen_address, run_listen, ask_target,
  ask_tunnel, run_dial, run_mode, run_interactive_inner, run_interactive, ask_forward,
}
use sape.Interactive.Validators.{
  required-valid, port_of-Ensures, ReadPeers, expect_peers-Ensures, ask_address-Ensures,
}
use sape.Interactive.WellFormed.{
  HasRelay, IsDialable, IsWellFormed, IsSound, IsSound-of, code_of-ne-empty, nonempty-ne-nil,
  forward_spec_from_str-IsForward,
}

module _ (forms : TextForms) {T : Type 0} (prompts : Prompts T) (inquire : IsInquire prompts) where
  run_relay-IsWellFormed : Ensures IsWellFormed (run_relay forms prompts)
  unfolding run_relay
  run_relay-IsWellFormed =
      Ensures-bind (λ s. valid_port s ≡ valid) IsWellFormed _ _
        (ask-Ensures prompts inquire (codes "Port") valid_port)
        (λ raw h.
          Ensures-bind (λ b. Unit {0}) IsWellFormed _ _
            (confirm-Ensures prompts inquire (codes "Use IPv6?") false)
            (λ ipv6 u.
              Ensures-bind (λ n. n ≤ 65535) IsWellFormed _ _
                (port_of-Ensures 4001 raw (omega arith) h)
                (λ port le. Ensures-pure IsWellFormed _ le)))

  listen_address-Ensures :
      (conn : ListenConn) → Ensures (λ a. Unit {0}) (listen_address forms prompts conn)
  listen_address-Ensures via_relay =
      Ensures-bind (λ a. Unit {0}) (λ a. Unit {0}) _ _
        (ask_address-Ensures forms prompts inquire (codes "Relay address")
          (codes "relay address cannot be empty") (codes "invalid relay multiaddr"))
        (λ a u. Ensures-pure (λ a. Unit {0}) (some a) tt)
  listen_address-Ensures lan_only = Ensures-pure (λ a. Unit {0}) none tt

  run_listen-IsWellFormed : Ensures IsWellFormed (run_listen forms prompts)
  unfolding run_listen
  run_listen-IsWellFormed =
      Ensures-bind (λ i. i < 2) IsWellFormed _ _
        (choose-Ensures prompts inquire (codes "Connection type?") 2)
        (λ conn lt.
          Ensures-bind (λ a. Unit {0}) IsWellFormed _ _
            (listen_address-Ensures (listen_conn_at conn))
            (λ addr u.
              Ensures-bind (λ s. any_text s ≡ valid) IsWellFormed _ _
                (ask-Ensures prompts inquire (codes "Pairing code? (optional)") any_text)
                (λ code_raw v.
                  Ensures-bind (λ s. valid_peers forms s ≡ valid) IsWellFormed _ _
                    (ask-Ensures prompts inquire (codes "Allowed peers? (optional)")
                      (valid_peers forms))
                    (λ peers_raw h.
                      Ensures-bind (ReadPeers forms (peer_texts (trim peers_raw))) IsWellFormed _ _
                        (expect_peers-Ensures forms peers_raw h)
                        (λ ids reads. Ensures-pure IsWellFormed _ (code_of-ne-empty code_raw))))))

  abbrev Target : DialTarget × Option Multiaddr → Type 0
  Target (target, relay_address) = HasRelay target relay_address

  ask_target-HasRelay : (conn : DialConn) → Ensures Target (ask_target forms prompts conn)
  ask_target-HasRelay by_circuit =
      Ensures-bind (λ a. Unit {0}) Target _ _
        (ask_address-Ensures forms prompts inquire (codes "Target relay circuit address")
          (codes "target address cannot be empty") (codes "invalid circuit multiaddr"))
        (λ a u. Ensures-pure Target (relay_circuit a, none) tt)
  ask_target-HasRelay by_mdns =
      let validator =
        required forms.peer_id_from_str (codes "peer id cannot be empty")
          (codes "invalid peer id") in
      Ensures-bind (λ s. validator s ≡ valid) Target _ _
        (ask-Ensures prompts inquire (codes "Peer ID") validator)
        (λ raw h.
          let (id, read) = required-valid forms.peer_id_from_str _ _ raw h in
          Ensures-bind (λ i. i ≡ id) Target _ _
            (expect-Ensures (forms.peer_id_from_str (trim raw)) id read)
            (λ i same. Ensures-pure Target (mdns i, none) tt))
  ask_target-HasRelay by_pairing =
      Ensures-bind (λ s. nonempty s ≡ valid) Target _ _
        (ask-Ensures prompts inquire (codes "Pairing code") nonempty)
        (λ raw h.
          Ensures-bind (λ a. Unit {0}) Target _ _
            (ask_address-Ensures forms prompts inquire (codes "Relay address")
              (codes "relay address cannot be empty") (codes "invalid relay multiaddr"))
            (λ a u.
              Ensures-pure Target (pairing_code (trim raw), some a)
                (nonempty-ne-nil raw h, λ e. cc)))

  ask_forward-Ensures :
      Ensures
        (λ raw. (spec : ForwardSpec) × (forward_spec_from_str (trim raw) ≡ ok spec))
        (ask_forward forms prompts)
  ask_forward-Ensures =
      Ensures-mono _ _ _
        (ask-Ensures prompts inquire (codes "Forward spec") (
          required forward_spec_from_str (codes "forward spec cannot be empty")
            (codes "invalid forward spec")))
        (λ raw h. required-valid forward_spec_from_str _ _ raw h)

  ask_tunnel-IsDialable :
      (mode : TunnelMode) (target : DialTarget) (relay_address : Option Multiaddr)
      → HasRelay target relay_address
      → Ensures IsDialable (ask_tunnel forms prompts mode target relay_address)
  ask_tunnel-IsDialable netcat_tunnel target relay_address r = Ensures-pure IsDialable _ (record {
    one_mode = (inl refl, inl refl);
    has_relay = r;
    no_jump = refl;
    local_read = tt;
    remote_read = tt;
    socks_fits = tt;
    gateway_is_reverse = λ g. cc;
  })
  ask_tunnel-IsDialable local_tunnel target relay_address r =
      Ensures-bind _ IsDialable _ _ ask_forward-Ensures (λ raw (spec, read).
        Ensures-bind (λ f. f ≡ spec) IsDialable _ _
          (expect-Ensures (forward_spec_from_str (trim raw)) spec read)
          (λ f same. Ensures-pure IsDialable _ (record {
            one_mode = (inr (refl, refl), inl refl);
            has_relay = r;
            no_jump = refl;
            local_read = forward_spec_from_str-IsForward (trim raw) f (read ∙ ap ok (sym same));
            remote_read = tt;
            socks_fits = tt;
            gateway_is_reverse = λ g. cc;
          })))
  ask_tunnel-IsDialable reverse_tunnel target relay_address r =
      Ensures-bind _ IsDialable _ _ ask_forward-Ensures (λ raw (spec, read).
        Ensures-bind (λ b. Unit {0}) IsDialable _ _
          (confirm-Ensures prompts inquire (codes "Enable gateway ports?") false)
          (λ gateway u.
            Ensures-bind (λ f. f ≡ spec) IsDialable _ _
              (expect-Ensures (forward_spec_from_str (trim raw)) spec read)
              (λ f same. Ensures-pure IsDialable _ (record {
                one_mode = (inl refl, inr refl);
                has_relay = r;
                no_jump = refl;
                local_read = tt;
                remote_read =
                    forward_spec_from_str-IsForward (trim raw) f (read ∙ ap ok (sym same));
                socks_fits = tt;
                gateway_is_reverse = λ g e. cc;
              }))))
  ask_tunnel-IsDialable socks_tunnel target relay_address r =
      Ensures-bind (λ s. valid_port s ≡ valid) IsDialable _ _
        (ask-Ensures prompts inquire (codes "SOCKS5 port") valid_port)
        (λ raw h.
          Ensures-bind (λ n. n ≤ 65535) IsDialable _ _ (port_of-Ensures 1080 raw (omega arith) h)
            (λ port le. Ensures-pure IsDialable _ (record {
              one_mode = (inl refl, inl refl);
              has_relay = r;
              no_jump = refl;
              local_read = tt;
              remote_read = tt;
              socks_fits = le;
              gateway_is_reverse = λ g. cc;
            })))

  run_dial-IsWellFormed : Ensures IsWellFormed (run_dial forms prompts)
  unfolding run_dial
  run_dial-IsWellFormed =
      Ensures-bind (λ i. i < 3) IsWellFormed _ _
        (choose-Ensures prompts inquire (codes "Connection type?") 3)
        (λ conn lt.
          Ensures-bind Target IsWellFormed _ _ (ask_target-HasRelay (dial_conn_at conn))
            (λ (target, relay_address) r.
              Ensures-bind (λ i. i < 4) IsWellFormed _ _
                (choose-Ensures prompts inquire (codes "Tunnel mode?") 4)
                (λ tunnel lt'.
                  Ensures-bind IsDialable IsWellFormed _ _
                    (ask_tunnel-IsDialable (tunnel_mode_at tunnel) target relay_address r)
                    (λ opt h. Ensures-pure IsWellFormed (dial_command opt) h))))

  run_mode-IsWellFormed : (mode : Mode) → Ensures IsWellFormed (run_mode forms prompts mode)
  run_mode-IsWellFormed relay_mode = run_relay-IsWellFormed
  run_mode-IsWellFormed listen_mode = run_listen-IsWellFormed
  run_mode-IsWellFormed dial_mode = run_dial-IsWellFormed

  -- Whatever is typed, the interactive mode does not panic where it says that an answer was validated,
  -- and it ends with a command, by the user's wish, or with the terminal's error. In the command the
  -- relay's port fits a u16 and the listener's code is not the empty text. A dialler has at most one
  -- tunnel option and no jump hops; its forwards are read by the command line's parser and their bind
  -- ports, like the port of a proxy, fit a u16; gateway ports come with a reverse forward only; and a
  -- pairing code comes with a relay and is some text that is not empty, of any form. The prompts are
  -- those of inquire: they ask again until a text passes.
  pub run_interactive-IsSound : (t : T) → IsSound (run_interactive forms prompts t)
  unfolding run_interactive run_interactive_inner
  run_interactive-IsSound t = IsSound-of (run_interactive_inner forms prompts t).0 (whole.holds t)
    where
      whole : Ensures IsWellFormed (run_interactive_inner forms prompts)
      whole =
          Ensures-bind (λ i. i < 3) IsWellFormed _ _
            (choose-Ensures prompts inquire (codes "What do you want to do?") 3)
            (λ mode lt. run_mode-IsWellFormed (mode_at mode))
