-- ===== src/Run/Launched.antt =====
-- What a process that gets as far as its command has established.
use sape.Prelude.{◌≡◌, refl, sym, ap, ◌∙◌, ◌≢◌, ◌↔◌, ◌⊎◌, inl, inr, Option, none, some}
use mathlib.Core.Path.{subst}
use sape.Prelude.Result.{Result, ok, err}
use sape.Text.{Text}
use sape.Protocol.{NamespaceError, check_namespace, tunnel_protocol, jump_protocol}
use sape.Protocol.Purposes.{tunnel, jump, protocol_of_iff}
use sape.Protocol.Apart.{IsNamespace, check_namespace_iff}
use sape.Cli.{RelayOpt, ListenOpt, DialOpt, Command, relay_command, listen_command, dial_command}
use sape.Terminal.{IsInquire}
use sape.Dial.{DialMode, parse_dial_mode}
use sape.Dial.Mode.{AtMostOne, AsksFor, parse_dial_mode_iff}
use sape.Interactive.{Outcome, run_interactive, command, exit_0, panics, fails}
use sape.Interactive.WellFormed.{IsSound}
use sape.Interactive.Sound.{run_interactive-IsSound}
use sape.Run.{
  Process, Launch, refused, clap_exits, ends, relay, listen, dial, namespace_of, dispatch,
  after_dialogue, launch_with, launch_checked, run,
}

-- The documented behaviour of clap's group of tunnel options, which is not multiple.
abbrev pub IsClap : Result Text (Option Command) → Type 0
IsClap arguments = (opt : DialOpt) → arguments ≡ ok (some (dial_command opt)) → AtMostOne opt

-- The namespace is fit for a protocol's name, and the two protocols are its own.
abbrev pub AreOf : Text → (tunnel_proto jump_proto namespace : Text) → Type 0
AreOf chosen tunnel_proto jump_proto namespace =
    (namespace ≡ chosen)
    × (IsNamespace chosen
        × ((tunnel_proto ≡ tunnel_protocol chosen) × (jump_proto ≡ jump_protocol chosen)))

module _ {T : Type 0} (process : Process T) where
  -- The command is the one of the arguments, or, without one there, that of the conversation.
  abbrev pub Chooses : Command → Type 0
  Chooses c =
      (process.arguments ≡ ok (some c))
      ⊎ ((process.arguments ≡ ok none)
          × (run_interactive process.forms process.prompts process.terminal ≡ command c))

  -- What each end of the launch promises, for the namespace that was chosen.
  abbrev pub IsLaunched : Text → Launch → Type 0
  IsLaunched chosen (refused e) = ¬ IsNamespace chosen
  IsLaunched chosen (clap_exits e) = IsNamespace chosen × (process.arguments ≡ err e)
  IsLaunched chosen (ends o) =
      IsNamespace chosen
      × ((process.arguments ≡ ok none)
          × ((run_interactive process.forms process.prompts process.terminal ≡ o)
              × ((o ≢ panics) × ((c : Command) → o ≢ command c))))
  IsLaunched chosen (relay opt tunnel_proto jump_proto namespace) =
      AreOf chosen tunnel_proto jump_proto namespace × Chooses (relay_command opt)
  IsLaunched chosen (listen opt tunnel_proto namespace) =
      AreOf chosen tunnel_proto (jump_protocol chosen) namespace × Chooses (listen_command opt)
  IsLaunched chosen (dial opt tunnel_proto jump_proto namespace) =
      AreOf chosen tunnel_proto jump_proto namespace
      × (Chooses (dial_command opt)
          × ((mode : DialMode) → (parse_dial_mode opt ≡ mode) ↔ AsksFor opt mode))

opt_of : {a b : DialOpt} → dial_command a ≡ dial_command b → a ≡ b
opt_of h = cc

module _ {T : Type 0} (process : Process T) (inquire : IsInquire process.prompts)
    (clap : IsClap process.arguments) where
  -- A command of either source, launched.
  dispatched-IsLaunched :
      (namespace : Text) (c : Command)
      → IsNamespace namespace
      → Chooses process c
      → ((opt : DialOpt) → c ≡ dial_command opt → AtMostOne opt)
      → IsLaunched process namespace
          (dispatch (tunnel_protocol namespace) (jump_protocol namespace) namespace c)
  dispatched-IsLaunched namespace (relay_command opt) fit from one =
      ((refl, (fit, (refl, refl))), from)
  dispatched-IsLaunched namespace (listen_command opt) fit from one =
      ((refl, (fit, (refl, refl))), from)
  dispatched-IsLaunched namespace (dial_command opt) fit from one =
      ((refl, (fit, (refl, refl))), (from, λ mode. parse_dial_mode_iff opt mode (one opt refl)))

  abbrev go : Text → Command → Launch
  go namespace c = dispatch (tunnel_protocol namespace) (jump_protocol namespace) namespace c

  dialogue-IsLaunched :
      (namespace : Text) (o : Outcome)
      → IsNamespace namespace
      → process.arguments ≡ ok none
      → run_interactive process.forms process.prompts process.terminal ≡ o
      → IsSound o
      → IsLaunched process namespace (after_dialogue (go namespace) o)
  dialogue-IsLaunched namespace (command c) fit absent said sound =
      dispatched-IsLaunched namespace c fit (inr (absent, said)) (λ opt e. one_of c sound opt e)
    where
      one_of :
          (c : Command)
          → IsSound (command c)
          → (opt : DialOpt) → c ≡ dial_command opt
          → AtMostOne opt
      one_of (relay_command r) sound opt e = cc
      one_of (listen_command l) sound opt e = cc
      one_of (dial_command d) sound opt e = subst AtMostOne (opt_of e) sound.one_mode
  dialogue-IsLaunched namespace exit_0 fit absent said sound =
      (fit, (absent, (said, ((λ e. cc), (λ c e. cc)))))
  dialogue-IsLaunched namespace panics fit absent said sound = absurd sound
  dialogue-IsLaunched namespace (fails x) fit absent said sound =
      (fit, (absent, (said, ((λ e. cc), (λ c e. cc)))))

  with-IsLaunched :
      (namespace : Text) (arguments : Result Text (Option Command))
      → IsNamespace namespace
      → process.arguments ≡ arguments
      → IsLaunched process namespace (launch_with process (go namespace) arguments)
  with-IsLaunched namespace (err e) fit h = (fit, h)
  with-IsLaunched namespace (ok (some c)) fit h =
      dispatched-IsLaunched namespace c fit (inl h)
        (λ opt e. clap opt (h ∙ ap (λ x. ok (some x)) e))
  with-IsLaunched namespace (ok none) fit h =
      dialogue-IsLaunched namespace (run_interactive process.forms process.prompts process.terminal)
        fit h refl (run_interactive-IsSound process.forms process.prompts inquire process.terminal)

  checked-IsLaunched :
      (namespace : Text) (r : Result NamespaceError (Unit {0}))
      → check_namespace namespace ≡ r
      → IsLaunched process namespace (launch_checked process namespace r)
  checked-IsLaunched namespace (err e) h = λ fit. cc ((check_namespace_iff namespace).1 fit, h)
  checked-IsLaunched namespace (ok u) h =
      with-IsLaunched namespace process.arguments ((check_namespace_iff namespace).0 h) refl

  -- A process refuses to start exactly because its namespace, which is the variable's or else the
  -- default, is not fit for a protocol's name; whatever it runs, it runs with the two protocols of that
  -- namespace. The command and its options are those of the arguments, or, if the arguments hold no
  -- command, those that the conversation with the user ends with; the conversation does not panic,
  -- and a dialler's mode is the one that its options ask for, whichever of the two they come from.
  -- clap exits with its own error, and only a conversation that ends without a command ends the
  -- process so. clap keeps to its group of options, and the prompts to their documentation.
  pub run-IsLaunched : IsLaunched process (namespace_of process.variable) (run process)
  unfolding run
  run-IsLaunched =
      checked-IsLaunched (namespace_of process.variable)
        (check_namespace (namespace_of process.variable)) refl

module _ {T : Type 0} (p q : Process T) (p_inquire : IsInquire p.prompts)
    (q_inquire : IsInquire q.prompts) (p_clap : IsClap p.arguments)
    (q_clap : IsClap q.arguments) where
  p-IsLaunched : {o : Launch} → run p ≡ o → IsLaunched p (namespace_of p.variable) o
  p-IsLaunched h =
      subst (IsLaunched p (namespace_of p.variable)) h (run-IsLaunched p p_inquire p_clap)

  q-IsLaunched : {o : Launch} → run q ≡ o → IsLaunched q (namespace_of q.variable) o
  q-IsLaunched h =
      subst (IsLaunched q (namespace_of q.variable)) h (run-IsLaunched q q_inquire q_clap)

  -- A dialler that runs asks a listener that runs for the very protocol that the listener accepts,
  -- exactly if both were started in the same namespace, each in the variable's or else the default.
  -- clap keeps to its group of options, and the prompts to their documentation, for both.
  pub run-dial-listen :
      (opt : DialOpt) (opt' : ListenOpt) (t j n t' n' : Text)
      → run p ≡ dial opt t j n
      → run q ≡ listen opt' t' n'
      → (t ≡ t') ↔ (namespace_of p.variable ≡ namespace_of q.variable)
  run-dial-listen opt opt' t j n t' n' hp hq =
      let (np, (fp, (tp, jp))) = (p-IsLaunched hp).0 in
      let (nq, (fq, (tq, jq))) = (q-IsLaunched hq).0 in
      let same =
        protocol_of_iff tunnel tunnel (namespace_of p.variable) (namespace_of q.variable)
          ((check_namespace_iff (namespace_of p.variable)).1 fp)
          ((check_namespace_iff (namespace_of q.variable)).1 fq) in
      ((λ e. (same.0 (sym tp ∙ e ∙ tq)).1), (λ e. tp ∙ same.1 (refl, e) ∙ sym tq))

  -- The same of a dialler and the relay that its jumps start at.
  pub run-dial-relay :
      (opt : DialOpt) (opt' : RelayOpt) (t j n t' j' n' : Text)
      → run p ≡ dial opt t j n
      → run q ≡ relay opt' t' j' n'
      → (j ≡ j') ↔ (namespace_of p.variable ≡ namespace_of q.variable)
  run-dial-relay opt opt' t j n t' j' n' hp hq =
      let (np, (fp, (tp, jp))) = (p-IsLaunched hp).0 in
      let (nq, (fq, (tq, jq))) = (q-IsLaunched hq).0 in
      let same =
        protocol_of_iff jump jump (namespace_of p.variable) (namespace_of q.variable)
          ((check_namespace_iff (namespace_of p.variable)).1 fp)
          ((check_namespace_iff (namespace_of q.variable)).1 fq) in
      ((λ e. (same.0 (sym jp ∙ e ∙ jq)).1), (λ e. jp ∙ same.1 (refl, e) ∙ sym jq))
