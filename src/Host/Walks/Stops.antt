-- ===== src/Host/Walks/Stops.antt =====
-- tuya_daemon/main.c: a signal ends the PC daemon. The main loop is counted by the events of the run.
use tuya_daemon.Base.{ℕ, zero, suc, ◌+◌, ◌≤◌, not, arith, length, is_zero, ◌==◌, String}
use tuya_daemon.World.{Signal, Event, Env, Sys, pure, ◌>>◌, syslog}
use tuya_daemon.World.Steps.{if-Walk, pure-Walk, exited-Walk}
use tuya_daemon.World.Steps.Invariants.{Armed, Arrives, running-before}
use tuya_daemon.World.Steps.Finish.{
  Finishes, whole, pure-Finishes, if-Finishes, bind-Finishes, then-Finishes, tell-Finishes,
  sigaction-Finishes,
}
use tuya_daemon.Host.Args.{Args, argp_ok, argp_err_unknown, parse_opt}
use tuya_daemon.Host.Main.{
  main_loop_from, serve, main, ArgpOutcome, argp_returns, argp_exits, after_argp, ArgpParse,
  no_args, signal_handler, set_up_signal_handler,
}
use tuya_daemon.Host.Walks.{Local, Ordinary, of_Local, own, logged, send_current_time-Walk}
use tuya_daemon.Host.Walks.Run.{
  stops, daemon-Walk, loop-Walk, init-Walk, connect-Walk, main_loop-Walk, cleanup-Walk,
}

all : (e : Event) → Ordinary e → Ordinary e
all e h = h

log-Finishes :
    {A : Type 0} (env : Env) (p : ℕ) (t : String) (a : A) (s : Sys)
    → Finishes ((syslog env p t >> pure a) s)
log-Finishes env p t a s = whole (logged {env = env} {Allowed = Local} own p t a)

module _ {env : Env} {g : Signal} {moment : ℕ} (signal : Arrives env g moment) where
  main_loop-Finishes :
      (fuel count : ℕ) (s : Sys)
      → Armed g moment s
      → moment ≤ length s.history + fuel
      → Finishes (main_loop_from env (suc fuel) count s)
  unfolding main_loop_from
  main_loop-Finishes zero count s armed enough =
      if-Finishes (s.keep_running == 1) _ _
        (λ go. absurd (omega (arith, running-before g moment s armed go))) (λ _. pure-Finishes)
  main_loop-Finishes (suc fuel) count s armed enough =
      if-Finishes (s.keep_running == 1) _ _
        (λ go. bind-Finishes signal (loop-Walk all) armed λ ret u a1 l1.
          if-Finishes (not (is_zero ret)) _ _ (λ _. log-Finishes env _ _ _ _)
            λ _. tell-Finishes signal _ _ a1 λ v a2 l2.
              bind-Finishes signal (send_current_time-Walk {Allowed = Ordinary} of_Local λ _ _. tt)
                a2
                λ sent w a3 l3.
                  if-Finishes (not (is_zero sent)) _ _
                    (λ _. tell-Finishes signal _ _ a3 λ x a4 l4.
                      if-Finishes (count + 1 == 10) _ _ (λ _. pure-Finishes)
                        λ _. main_loop-Finishes fuel (count + 1) x a4 (omega arith))
                    λ _. main_loop-Finishes fuel 0 w a3 (omega arith))
        (λ _. pure-Finishes)

  serve-Finishes :
      (fuel : ℕ) (a : Args) (s : Sys)
      → Armed g moment s
      → moment ≤ length s.history + fuel
      → Finishes (serve env (suc fuel) a s)
  unfolding serve
  serve-Finishes fuel a s armed enough =
      bind-Finishes signal (init-Walk all _ _) armed λ ready u a1 l1.
        if-Finishes (not (is_zero ready)) _ _ (λ _. pure-Finishes)
          λ _. bind-Finishes signal (connect-Walk all) a1 λ up v a2 l2.
            then-Finishes signal
              (if-Walk (not (is_zero up)) (pure up) _ pure-Walk
                (main_loop-Walk {Loops = Unit} all _ 0 v tt))
              (if-Finishes (not (is_zero up)) (pure up) _ (λ _. pure-Finishes)
                (λ _. main_loop-Finishes fuel 0 v a2 (omega arith)))
              a2 λ ret w a3 l3. whole (cleanup-Walk {Allowed = Ordinary} all ret)

  parsed-Finishes :
      (o : ArgpOutcome) (fuel : ℕ) (s : Sys)
      → Armed g moment s
      → moment ≤ length s.history + fuel
      → Finishes (after_argp env (suc fuel) o s)
  unfolding after_argp
  parsed-Finishes (argp_exits n) fuel s armed enough =
      whole {env = env} {Allowed = Ordinary} exited-Walk
  parsed-Finishes (argp_returns argp_err_unknown a) fuel s armed enough =
      tell-Finishes signal _ _ armed λ u a1 l1. pure-Finishes
  parsed-Finishes (argp_returns argp_ok a) fuel s armed enough =
      bind-Finishes signal (daemon-Walk a.become_daemon) armed λ d u a1 l1.
        tell-Finishes signal _ _ a1 λ v a2 l2. tell-Finishes signal _ _ a2 λ w a3 l3.
          if-Finishes (not (is_zero d)) _ _ (λ _. log-Finishes env _ _ _ _)
            λ _. serve-Finishes fuel a w a3 (omega arith)

  -- If SIGINT or SIGTERM arrives at the end of some call after the handlers have been installed,
  -- and the fuel exceeds the number of the calls up to that moment, then `main` of the PC daemon
  -- comes to its end, whatever the libraries answer and whatever the command line is.
  pub main-Finishes :
      (parse : ArgpParse) (fuel : ℕ) (s : Sys)
      → length s.history + 3 ≤ moment
      → moment ≤ length s.history + fuel
      → Finishes (main env parse (suc fuel) s)
  unfolding main set_up_signal_handler
  main-Finishes parse fuel s late enough =
      sigaction-Finishes signal s signal_handler _ stops late
        λ b armed l0. parsed-Finishes (parse parse_opt no_args) fuel b armed (omega arith)
