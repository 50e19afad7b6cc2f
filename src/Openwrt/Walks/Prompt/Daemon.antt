-- ===== src/Openwrt/Walks/Prompt/Daemon.antt =====
-- openwrt/tuya_daemon/src/main.c: how soon the daemon ends after a signal, from the start of `main`
-- to its end.
use tuya_daemon.Base.{
  Bool, ℕ, ◌+◌, ◌≤◌, refl, not, arith, length, is_zero, ◌==◌, Option, none, some, Option-cases, inl,
  inr, ℤ,
}
use tuya_daemon.World.{
  Outcome, log_info, Signal, Event, Env, Sys, pure, ◌>>◌, Bytes, syslog, skip, CharPtr, tell, Cmd,
  log_err, log_debug, log_upto,
}
use tuya_daemon.World.Steps.{Walk, pure-Walk, if-Walk, free-Walk, strdup-Walk, call-Walk, final}
use tuya_daemon.World.Steps
use tuya_daemon.World.Steps.Invariants.{Armed, Arrives}
use tuya_daemon.World.Steps.Prompt.{
  Kind, late, Prompt, Prompt-late, returns, if-Prompt, quiet-Prompt, installed-Prompt, bind,
}
use tuya_daemon.World.Steps.Rounds.{same-Other, Other, log-Prompt}
use tuya_daemon.Openwrt.Connection.{tuya_mqtt_disconnect}
use tuya_daemon.Openwrt.Main.{
  serve, run_mqtt, configured, run_daemon, main, main_loop, valid_level, all_options, exit_failure,
  priority_at,
}
use tuya_daemon.Openwrt.Walks.{Ordinary, own, told, called, uci_get_option-Walk}
use tuya_daemon.Openwrt.Walks.Callbacks.{at_disconnect, stops}
use tuya_daemon.Openwrt.Args.{str_to_digit}
use tuya_daemon.Openwrt.Signals.{signal_handler}
use tuya_daemon.Openwrt.Walks.Daemon.{uci_free-Walk, connections-Walk}
use tuya_daemon.Openwrt.Walks.Prompt.{uncounted, callbacks-Other, connect-Prompt, main_loop-Prompt}

module _ {env : Env} {g : Signal} {moment : ℕ} (signal : Arrives env g moment) (k : Kind) where
  -- A part that has no such call.
  quiet :
      {A : Type 0} {s : Sys} {r : Outcome A} (n : ℕ)
      → Walk env Ordinary ⊥ s r
      → Armed g moment s
      → late moment k s.history ≤ n
      → Prompt g moment k n r
  quiet n walk armed few = quiet-Prompt signal n (uncounted k) walk armed few

  serve-Prompt :
      (fuel c : ℕ) (s : Sys)
      → Armed g moment s
      → late moment k s.history ≤ 0
      → Prompt g moment k 1 (serve env fuel c s)
  unfolding serve main_loop
  serve-Prompt fuel c s armed few =
      bind (omega arith) (connect-Prompt signal k fuel s armed few) λ ret u a f.
        if-Prompt (not (is_zero ret)) _ _ (λ _. returns a f)
          λ _. bind (omega arith) (main_loop-Prompt signal k fuel 0 c u a f) λ good v b f1.
            quiet 1
              (Steps.bind
                (if-Walk (v.keep_running == 0) _ skip
                  (told own (Event.syslog log_info "Got signal to exit") tt) pure-Walk)
                λ _ w. pure-Walk)
              b f1

  run_mqtt-Prompt :
      (fuel : ℕ) (id secret : Bytes) (s : Sys)
      → Armed g moment s
      → late moment k s.history ≤ 0
      → Prompt g moment k 1 (run_mqtt env fuel id secret s)
  unfolding run_mqtt tuya_mqtt_disconnect
  run_mqtt-Prompt fuel id secret s armed few =
      bind (omega arith)
        (quiet-Prompt signal {Loops = ⊥} 0 (same-Other k)
          (connections-Walk (uncounted k) (λ _. refl) id secret) armed few)
        λ r u a f.
          bind (omega arith)
            (if-Prompt {n = 1} (not (is_zero r.0)) (pure r.0) (serve env fuel r.1)
              (λ _. returns a (omega arith)) (λ _. serve-Prompt fuel r.1 u a f))
            λ ret v b f1.
              quiet-Prompt signal {Allowed = Other k} {Loops = ⊥} 1 (same-Other k)
                (Steps.bind
                  (Steps.bind (callbacks-Other k _ v λ msg. at_disconnect v.history)
                    λ _ w. call-Walk _ _ (λ _. refl))
                  λ _ x. Steps.bind (call-Walk _ _ (λ _. refl)) λ _ y. pure-Walk)
                b f1

  configured-Prompt :
      (fuel : ℕ) (id secret level : Bytes) (s : Sys)
      → Armed g moment s
      → late moment k s.history ≤ 0
      → Prompt g moment k 1 (configured env fuel id secret level s)
  unfolding configured
  configured-Prompt fuel id secret level s armed few = go (valid_level (str_to_digit level))
    where
      go :
          (o : Option ℕ)
          → Prompt g moment k 1 (
              (elim o as (λ _. Cmd ℤ) [
                | none ↦ do
                  syslog env log_err "Unrecognized value for option 'log_level': %s"
                  pure exit_failure
                | some log_level ↦ do
                  tell env (Event.setlogmask (log_upto (priority_at log_level)))
                  syslog env log_debug
                      "Options: device ID: %s, device secret: %s, product ID: %s, log_level: %d"
                  run_mqtt env fuel id secret
              ])
                s)
      go none = log-Prompt signal k 1 _ _ _ s armed (omega arith)
      go (some l) = bind (omega arith) (quiet 0 (told own _ tt) armed few) λ _ u a f.
          bind (omega arith) (quiet 0 (told own _ tt) a f)
            λ _ v b f1. run_mqtt-Prompt fuel id secret v b f1

  run_daemon-Prompt :
      (fuel : ℕ) (have : Bool) (n0 n1 n2 n3 : CharPtr) (t : Sys)
      → Armed g moment t
      → late moment k t.history ≤ 0
      → Prompt g moment k 1 (run_daemon env fuel have n0 n1 n2 n3 t)
  unfolding run_daemon
  run_daemon-Prompt fuel have n0 n1 n2 n3 t a f =
      if-Prompt (not have) _ _ (λ _. log-Prompt signal k 1 _ _ _ t a (omega arith))
        λ _. bind (omega arith) (quiet 0 (uci_get_option-Walk own n0 _) a f) λ id u a0 f0.
          bind (omega arith) (quiet 0 (uci_get_option-Walk own n1 _) a0 f0) λ secret v a1 f1.
            bind (omega arith) (quiet 0 (uci_get_option-Walk own n2 _) a1 f1) λ product w a2 f2.
              bind (omega arith) (quiet 0 (uci_get_option-Walk own n3 _) a2 f2) λ level x a3 f3.
                elim (Option-cases (all_options id secret product level)) [
                  | inl missing ↦ rw missing (returns a3 (omega arith))
                  | inr (o, all) ↦ rw all (configured-Prompt fuel _ _ _ x a3 f3)
                ]

  -- If SIGINT or SIGTERM arrives at the end of some call after the handlers have been installed,
  -- then from that moment on `main` of the OpenWrt daemon sleeps at most once, calls
  -- `tuya_mqtt_connect` at most once and `tuya_mqtt_loop` at most once, in every environment, with
  -- every fuel and whatever the outcome.
  pub main-Prompt :
      (fuel : ℕ) (s : Sys)
      → length s.history + 3 ≤ moment
      → late moment k (final (main env fuel s)).history ≤ 1
  unfolding main
  main-Prompt fuel s early = Prompt-late (
      installed-Prompt signal s signal_handler _ stops early λ b armed few.
        bind (omega arith) (quiet 0 (told own _ tt) armed few) λ _ c a1 f1.
          bind (omega arith) (quiet 0 (strdup-Walk _) a1 f1) λ n0 d a2 f2.
            bind (omega arith) (quiet 0 (strdup-Walk _) a2 f2) λ n1 e a3 f3.
              bind (omega arith) (quiet 0 (strdup-Walk _) a3 f3) λ n2 h a4 f4.
                bind (omega arith) (quiet 0 (strdup-Walk _) a4 f4) λ n3 i a5 f5.
                  bind (omega arith) (quiet 0 (called own _ _ (λ _. tt)) a5 f5) λ have i1 a7 f7.
                    bind (omega arith) (run_daemon-Prompt fuel have n0 n1 n2 n3 i1 a7 f7)
                      λ ret j a6 f6.
                        quiet 1
                          (Steps.bind (told own _ tt) λ _ l. Steps.bind (free-Walk n0) λ _ m.
                            Steps.bind (free-Walk n1) λ _ n. Steps.bind (free-Walk n2) λ _ o.
                              Steps.bind (free-Walk n3) λ _ p.
                                Steps.bind (uci_free-Walk own have)
                                  λ _ q. Steps.bind (told own _ tt) λ _ r. pure-Walk)
                          a6 f6)
