-- ===== src/Host/Main/Whole.antt =====
-- tuya_daemon/main.c from its start to its end, for a command line that does not ask for a
-- background process.
use tuya_daemon.Base.{
  ℕ, suc, ◌+◌, ◌≤◌, ◌≡◌, refl, false, List, String, ℤ, pos, is_zero, not, length, Bool-cases, inl,
  inr, if◌then◌else◌,
}
use tuya_daemon.World.{
  Event, Sys, Env, Signal, literal, pure, ◌>>◌, tell, syslog, log_info, log_err,
}
use tuya_daemon.World.Logic
use tuya_daemon.World.Logic.{
  Ends, Returns, ends, runs, of_Returns, View, At, At-view, view, Quits, lifecycle, tell-Keeps,
}
use tuya_daemon.World.Steps.Invariants.{Arrives}
use tuya_daemon.World.Steps.Install.{both_Quits, handlers-Installed}
use tuya_daemon.World.Steps.Finish.{Finishes-Returns}
use tuya_daemon.Host.Args.{Args, ArgpError, argp_ok, argp_err_unknown, parse_opt}
use tuya_daemon.Host.Connection.Format.{ValidJson}
use tuya_daemon.Host.Connection.Report.{Clock}
use tuya_daemon.Host.Main.{
  ArgpParse, argp_returns, after_argp, no_args, exit_failure, signal_handler, set_up_signal_handler,
  serve, main,
}
use tuya_daemon.Host.Main.Clean.{Closed, serve-Closed}
use tuya_daemon.Host.Main.Loop.{GoesOn}
use tuya_daemon.Host.Walks.Run.{stops}
use tuya_daemon.Host.Walks.Stops.{main-Finishes}

-- The end of `main`: the command line is refused and the library never called, or the end of the
-- daemon after `init_tuya`.
pub data Ended (bs : List ℕ) (old : List Event) : ℤ → Sys → Type 0 where
  refused : {u : Sys} → u.blocks ≡ bs → lifecycle u.history ≡ old → Ended bs old exit_failure u
  served : {r : ℤ} {u : Sys} → Closed bs old r u → Ended bs old r u

module _ (env : Env) (clock : Clock env) (valid : ValidJson env) where
  -- After `become_daemon` or without it.
  pub opened-Ends :
      (fuel : ℕ) (a : Args) (d : ℤ) {v : View} (t : Sys) (text : String)
      → v.date_time_format ≡ literal text
      → v.date_time_format_should_free ≡ false
      → Quits v.handlers
      → At v t
      → Ends (Ended v.blocks v.trace) (GoesOn v.blocks) (
          (do
            tell env (Event.openlog "tuya_daemon")
            syslog env log_info "Device ID: %s, device secret: %s, product ID: %s\n"
            if not (is_zero d)
                then (do
                  syslog env log_err "Failed to become a daemon: become_daemon() returned %d\n"
                  pure exit_failure)
                else serve env fuel a)
            t)
  opened-Ends fuel a d t text format flag quits at =
      Logic.bind (of_Returns (tell-Keeps env at _ refl)) λ _ u k.
        Logic.bind (of_Returns (tell-Keeps env k _ refl)) λ _ u1 k1. elim (Bool-cases (is_zero d)) [
          | inr bad ↦ rw bad (
              Logic.bind (of_Returns (tell-Keeps env k1 _ refl))
                λ _ u2 k2. ends (refused k2.blocks k2.trace))
          | inl ok ↦ rw ok (
              Logic.map-Ends (serve-Closed env clock valid fuel a u1 text refl format flag quits k1)
                (λ _ _ closed. served closed) (λ _ going. going))
        ]

module _ (env : Env) (clock : Clock env) (valid : ValidJson env) (parse : ArgpParse)
    (status : ArgpError) (a : Args) (returned : parse parse_opt no_args ≡ argp_returns status a)
    (foreground : a.become_daemon ≡ false) where
  after_parse-Ended :
      (fuel : ℕ) (status : ArgpError) {v : View} (t : Sys) (text : String)
      → a.become_daemon ≡ false
      → v.date_time_format ≡ literal text
      → v.date_time_format_should_free ≡ false
      → Quits v.handlers
      → At v t
      → Ends
          (Ended v.blocks v.trace)
          (GoesOn v.blocks)
          (after_argp env fuel (argp_returns status a) t)
  unfolding after_argp
  after_parse-Ended fuel argp_err_unknown t text here format flag quits at =
      Logic.bind (of_Returns (tell-Keeps env at _ refl)) λ _ u k. ends (refused k.blocks k.trace)
  after_parse-Ended fuel argp_ok t text here format flag quits at = rw here (
      opened-Ends env clock valid fuel (record a { become_daemon = false }) (pos 0) t text format
        flag quits at)

  main_run-Ended :
      (fuel : ℕ) (s : Sys) (text : String)
      → s.date_time_format ≡ literal text
      → s.date_time_format_should_free ≡ false
      → Ends (Ended s.blocks (lifecycle s.history)) (GoesOn s.blocks) (main env parse fuel s)
  unfolding main set_up_signal_handler
  main_run-Ended fuel s text format flag =
      Logic.bind (of_Returns (handlers-Installed env signal_handler s)) λ _ b (k, _). rw returned (
        after_parse-Ended fuel status b text foreground format flag
          (both_Quits signal_handler s.handlers stops) k)

  -- Conditions: `strftime` and the JSON texts are as the code expects, `argp_parse` returns from
  -- the command line and has found no request for a background process there, the format of the
  -- time is a constant whose flag is not set, and SIGINT or SIGTERM arrives at the end of some call
  -- after the handlers have been installed, with more fuel than calls up to that moment. Then
  -- `main` of the PC daemon returns, without undefined behaviour; the live blocks are those from
  -- before it; and either it returns EXIT_FAILURE with no call in its lifecycle, since the command
  -- line was refused, or with `tuya_mqtt_init` failed, or the library was disconnected and then
  -- deinitialised as the last lifecycle calls.
  pub main-Returns :
      {g : Signal} {moment : ℕ} (signal : Arrives env g moment) (fuel : ℕ) (s : Sys) (text : String)
      → s.date_time_format ≡ literal text
      → s.date_time_format_should_free ≡ false
      → length s.history + 3 ≤ moment
      → moment ≤ length s.history + fuel
      → Returns (Ended s.blocks (lifecycle s.history)) (main env parse (suc fuel) s)
  main-Returns signal fuel s text format flag late enough =
      Finishes-Returns (main_run-Ended (suc fuel) s text format flag)
        (main-Finishes signal parse fuel s late enough)
