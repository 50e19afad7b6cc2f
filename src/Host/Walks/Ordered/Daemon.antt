-- ===== src/Host/Walks/Ordered/Daemon.antt =====
-- tuya_daemon/main.c: the order of the calls to the MQTT library, from the start of `main` to its
-- end.
use tuya_daemon.Base.{
  ℕ, ◌≡◌, refl, ◌∙◌, ◌⊎◌, inl, inr, Bool, true, false, not, some, ℤ, pos, is_zero, if◌then◌else◌,
  Bool-cases, arith,
}
use tuya_daemon.World.{Event, Env, Sys, sigint, sigterm, pure}
use tuya_daemon.World.Steps
use tuya_daemon.World.Steps.{Walk, pure-Walk, if-Walk, sigaction-Walk}
use tuya_daemon.World.Protocol.{
  Phase, unopened, init_failed, closed, is_open, use_of, follow, In, moved, Obeys, returns, exits,
  Still, mono, bind, proceed, if-Obeys, Walk-Obeys, Passive, log_pure,
}
use tuya_daemon.Host.Args.{Args, argp_ok, argp_err_unknown, parse_opt}
use tuya_daemon.Host.Daemon.{become_daemon}
use tuya_daemon.Host.Main.{
  signal_handler, ArgpOutcome, argp_returns, argp_exits, after_argp, ArgpParse, no_args,
  exit_failure, set_up_signal_handler, main_loop_from, serve, main,
}
use tuya_daemon.Host.Walks.{own, told}
use tuya_daemon.Host.Walks.Background.{Daemonising, become_daemon-Walk}
use tuya_daemon.Host.Walks.Run.{stops}
use tuya_daemon.Host.Walks.Ordered.{
  silent, quiet, init-Obeys, connect-Obeys, main_loop-Obeys, cleanup-Obeys,
}

background_silent : (p : Phase) (e : Event) → Daemonising e → follow p (use_of e) ≡ some p
unfolding follow
background_silent p (Event.mqtt_init r) h = absurd h
background_silent p (Event.mqtt_connect r) h = absurd h
background_silent p (Event.mqtt_loop r) h = absurd h
background_silent p (Event.mqtt_connected r) h = absurd h
background_silent p (Event.mqtt_disconnect r) h = absurd h
background_silent p (Event.mqtt_deinit r) h = absurd h
background_silent p (Event.sleep n) h = absurd h
background_silent p (Event.property_report q r) h = absurd h
background_silent p (Event.property_report_with_ack q r) h = absurd h
background_silent p _ h = refl

-- The ends of `main`: the library is closed, or it has not been opened, or not successfully, and the
-- result is EXIT_FAILURE.
abbrev pub HasEnded : ℤ → Phase → Type 0
HasEnded ret p = (p ≡ closed) ⊎ ((ret ≡ exit_failure) × ((p ≡ unopened) ⊎ (p ≡ init_failed)))

worked : (b : Bool) → not b ≡ false → b ≡ true
worked b h = ground arith

module _ (env : Env) where
  serve-Obeys :
      (fuel : ℕ) (a : Args) (s : Sys) → In unopened s → Obeys HasEnded (serve env fuel a s)
  unfolding serve
  serve-Obeys fuel a s i = bind (init-Obeys env a.device_id a.device_secret s i) λ ready u p j e.
      elim (Bool-cases (is_zero ready)) [
        | inr bad ↦ rw bad (returns p j (inr (refl, inr (e ∙ rw bad refl))))
        | inl ok ↦ rw ok (
            bind (connect-Obeys env u (moved u (e ∙ rw ok refl) j)) λ up v q k (linking, within).
              bind
                (if-Obeys {Q = λ _ x. is_open x ≡ true} (not (is_zero up)) (pure up)
                  (main_loop_from env fuel 0) (λ _. returns q k within)
                  (λ go. main_loop-Obeys env fuel 0 v (moved v (linking (worked _ go)) k)))
                λ ret w x l within'. mono (cleanup-Obeys env ret x w within' l) λ _ _ e'. inl e')
      ]

  daemon-Obeys :
      (b : Bool) (s : Sys)
      → In unopened s
      → Obeys (Still unopened) ((if b then become_daemon env else pure (pos 0)) s)
  daemon-Obeys true s i =
      Walk-Obeys {env = env} {Allowed = Passive unopened} (λ _ h. h)
        (become_daemon-Walk (silent unopened) (background_silent unopened)) i
  daemon-Obeys false s i = returns unopened i refl

  parsed-Obeys :
      (fuel : ℕ) (o : ArgpOutcome) (s : Sys)
      → In unopened s
      → Obeys HasEnded (after_argp env fuel o s)
  unfolding after_argp
  parsed-Obeys fuel (argp_exits n) s i = exits unopened i
  parsed-Obeys fuel (argp_returns argp_err_unknown a) s i =
      proceed (quiet {env = env} (told own _ tt) i)
        λ _ u j. returns unopened j (inr (refl, inl refl))
  parsed-Obeys fuel (argp_returns argp_ok a) s i =
      proceed (daemon-Obeys a.become_daemon s i) λ d u j.
        proceed (quiet {env = env} (told own _ tt) j) λ _ v k.
          proceed (quiet {env = env} (told own _ tt) k) λ _ w l.
            if-Obeys (not (is_zero d)) _ _ (λ _. log_pure env _ _ _ w l (inr (refl, inl refl)))
              λ _. serve-Obeys fuel a w l

  -- From every state in which libtuya has not been used, in every environment, for every command
  -- line and whatever the outcome: the calls of `main` of the PC daemon follow the same protocol of
  -- libtuya. If `main` returns, the library is closed, or the result is EXIT_FAILURE and
  -- `tuya_mqtt_init` has failed or has not been called; if `main` is in its main loop when the fuel
  -- is gone, `tuya_mqtt_connect` has succeeded and no `tuya_mqtt_loop` has failed.
  pub main_argp-Obeys :
      (parse : ArgpParse) (fuel : ℕ) (s : Sys)
      → In unopened s
      → Obeys HasEnded (main env parse fuel s)
  unfolding main set_up_signal_handler
  main_argp-Obeys parse fuel s i =
      proceed
        (quiet
          (Steps.bind (sigaction-Walk sigint signal_handler tt stops)
            λ _ a. sigaction-Walk sigterm signal_handler tt stops)
          i)
        λ _ b j. parsed-Obeys fuel (parse parse_opt no_args) b j
