-- ===== src/Host/Walks/Prompt/Daemon.antt =====
-- tuya_daemon/main.c: how soon the PC daemon ends after a signal, from the start of `main` to its
-- end.
use tuya_daemon.Base.{
  ℕ, ◌+◌, ◌≤◌, ◌≡◌, refl, Bool, true, false, Option, not, arith, length, is_zero, ◌==◌, ℤ, pos,
  if◌then◌else◌,
}
use tuya_daemon.World.{Bytes, Outcome, Signal, Event, Env, Sys, pure, skip}
use tuya_daemon.World.Steps
use tuya_daemon.World.Steps.{
  Walk, pure-Walk, if-Walk, step, next, here, configure, call-Walk, final,
}
use tuya_daemon.World.Steps.Invariants.{Armed, Arrives}
use tuya_daemon.World.Steps.Prompt.{
  Kind, hit, late, Prompt, Prompt-late, returns, exits, if-Prompt, quiet-Prompt, installed-Prompt,
  bind,
}
use tuya_daemon.World.Steps.Rounds.{Other, same-Other, log-Prompt}
use tuya_daemon.Host.Args.{Args, argp_ok, argp_err_unknown, parse_opt}
use tuya_daemon.Host.Daemon.{become_daemon}
use tuya_daemon.Host.Main.{
  signal_handler, ArgpOutcome, argp_returns, argp_exits, after_argp, ArgpParse, no_args,
  set_up_signal_handler, init_tuya, main_loop_from, tuya_mqtt_disconnect, cleanup, serve, main,
}
use tuya_daemon.Host.Walks.{told, logged, free_format-Walk}
use tuya_daemon.Host.Walks.Background.{Daemonising, become_daemon-Walk}
use tuya_daemon.Host.Walks.Run.{stops, callbacks-Walk}
use tuya_daemon.Host.Walks.Prompt.{uncounted, connect-Prompt, main_loop-Prompt}

background_uncounted : (k : Kind) (e : Event) → Daemonising e → hit k e ≡ 0
background_uncounted k (Event.mqtt_connect r) h = absurd h
background_uncounted k (Event.mqtt_loop r) h = absurd h
background_uncounted k (Event.sleep n) h = absurd h
background_uncounted k _ h = refl

module _ {env : Env} (k : Kind) where
  init-Other :
      {s : Sys} (id secret : Option Bytes) → Walk env (Other k) ⊥ s (init_tuya env id secret s)
  unfolding init_tuya
  init-Other id secret = Steps.bind (call-Walk _ _ (λ _. refl)) λ ret u.
      if-Walk (not (is_zero ret)) _ _ (logged (uncounted k) _ _ _) (step (next here (configure _)))

  cleanup-Other : {s : Sys} (ret : ℤ) → Walk env (Other k) ⊥ s (cleanup env ret s)
  unfolding cleanup tuya_mqtt_disconnect
  cleanup-Other {s} ret =
      Steps.bind (if-Walk (s.keep_running == 0) _ skip (told (uncounted k) _ tt) pure-Walk) λ _ u.
        Steps.bind (told (uncounted k) _ tt) λ _ v.
          Steps.bind
            (Steps.bind (callbacks-Walk (uncounted k) (λ _ _. refl) _ v)
              λ _ w. call-Walk _ _ (λ _. refl))
            λ _ x. Steps.bind (call-Walk _ _ (λ _. refl)) λ _ y.
              Steps.bind (free_format-Walk (uncounted k))
                λ _ z. Steps.bind (told (uncounted k) _ tt) λ _ _. pure-Walk

  daemon-Other :
      {s : Sys} (b : Bool)
      → Walk env (Other k) ⊥ s ((if b then become_daemon env else pure (pos 0)) s)
  daemon-Other true = become_daemon-Walk (uncounted k) (background_uncounted k)
  daemon-Other false = pure-Walk

module _ {env : Env} {g : Signal} {moment : ℕ} (signal : Arrives env g moment) (k : Kind) where
  -- A part that has no such call.
  quiet :
      {A : Type 0} {s : Sys} {r : Outcome A} (n : ℕ)
      → Walk env (Other k) ⊥ s r
      → Armed g moment s
      → late moment k s.history ≤ n
      → Prompt g moment k n r
  quiet n walk armed few = quiet-Prompt signal n (same-Other k) walk armed few

  serve-Prompt :
      (fuel : ℕ) (a : Args) (s : Sys)
      → Armed g moment s
      → late moment k s.history ≤ 0
      → Prompt g moment k 1 (serve env fuel a s)
  unfolding serve
  serve-Prompt fuel a s armed few =
      bind (omega arith) (quiet 0 (init-Other k a.device_id a.device_secret) armed few)
        λ ready u b f.
          if-Prompt (not (is_zero ready)) _ _ (λ _. returns b (omega arith))
            λ _. bind (omega arith) (connect-Prompt signal k u b f) λ up v c f1.
              bind (omega arith)
                (if-Prompt {n = 1} (not (is_zero up)) (pure up) (main_loop_from env fuel 0)
                  (λ _. returns c f1) (λ _. main_loop-Prompt signal k fuel 0 v c f1))
                λ ret w d f2. quiet 1 (cleanup-Other k ret) d f2

  parsed-Prompt :
      (fuel : ℕ) (o : ArgpOutcome) (s : Sys)
      → Armed g moment s
      → late moment k s.history ≤ 0
      → Prompt g moment k 1 (after_argp env fuel o s)
  unfolding after_argp
  parsed-Prompt fuel (argp_exits n) s armed few = exits (omega arith)
  parsed-Prompt fuel (argp_returns argp_err_unknown a) s armed few =
      quiet 1 (Steps.bind (told (uncounted k) _ tt) λ _ _. pure-Walk) armed (omega arith)
  parsed-Prompt fuel (argp_returns argp_ok a) s armed few =
      bind (omega arith) (quiet 0 (daemon-Other k a.become_daemon) armed few) λ d u a1 f1.
        bind (omega arith) (quiet 0 (told (uncounted k) _ tt) a1 f1) λ _ v a2 f2.
          bind (omega arith) (quiet 0 (told (uncounted k) _ tt) a2 f2) λ _ w a3 f3.
            if-Prompt (not (is_zero d)) _ _ (λ _. log-Prompt signal k 1 _ _ _ w a3 (omega arith))
              λ _. serve-Prompt fuel a w a3 f3

  -- If SIGINT or SIGTERM arrives at the end of some call after the handlers have been installed,
  -- then from that moment on `main` of the PC daemon sleeps at most once, calls `tuya_mqtt_connect`
  -- at most once and `tuya_mqtt_loop` at most once, in every environment, for every command line,
  -- with every fuel and whatever the outcome.
  pub main_argp-Prompt :
      (parse : ArgpParse) (fuel : ℕ) (s : Sys)
      → length s.history + 3 ≤ moment
      → late moment k (final (main env parse fuel s)).history ≤ 1
  unfolding main set_up_signal_handler
  main_argp-Prompt parse fuel s early = Prompt-late (
      installed-Prompt signal s signal_handler _ stops early
        λ b armed few. parsed-Prompt fuel (parse parse_opt no_args) b armed few)
