-- ===== src/Host/Walks/Ordered.antt =====
-- tuya_daemon/main.c: the order of the calls to the MQTT library.
pub mod Daemon
use tuya_daemon.Base.{
  ℕ, zero, suc, ◌+◌, ◌≡◌, refl, ◌∙◌, ap, ◌⊎◌, inl, inr, Bool, true, false, not, ◌&&◌, Option, some,
  ℤ, pos, is_zero, ◌==◌, if◌then◌else◌, Bool-cases, List, arith,
}
use tuya_daemon.World.{
  Bytes, Event, Env, Sys, Cmd, Callback, Outcome, sigint, sigterm, pure, skip, syslog, tell, ◌>>◌,
  ◌>>=◌, log_err, log_info,
}
use tuya_daemon.World.Steps
use tuya_daemon.World.Steps.{Walk, pure-Walk, if-Walk, sigaction-Walk}
use tuya_daemon.World.Protocol.{
  Phase, unopened, init_failed, opened, linked, broken, left, closed, is_open, Use, use_of, follow,
  In, moved, Obeys, returns, looping, Still, mono, bind, proceed, if-Obeys, tell-Obeys, call-Obeys,
  Walk-Obeys, Passive, reports_stay, other_stays, leaves_open, after_connect, refused, IsReady,
  log_pure,
}
use tuya_daemon.Host.Args.{Args, ArgpError, argp_ok, argp_err_unknown, parse_opt}
use tuya_daemon.Host.Daemon.{become_daemon}
use tuya_daemon.Host.Connection.{send_current_time}
use tuya_daemon.Host.Main.{
  signal_handler, ArgpParse, no_args, exit_failure, set_up_signal_handler, run_callbacks,
  tuya_mqtt_loop, tuya_mqtt_disconnect, init_tuya, retry_connect, settle, connect_to_tuya,
  main_loop_from, cleanup, serve, main,
}
use tuya_daemon.Host.Walks.{Local, own, told, send_current_time-Walk, free_format-Walk}
use tuya_daemon.Host.Walks.Background.{Daemonising, become_daemon-Walk}
use tuya_daemon.Host.Walks.Run.{callbacks-Walk, stops}

-- What is no call to the library leaves every phase as it is.
pub silent : (p : Phase) (e : Event) → Local e → follow p (use_of e) ≡ some p
unfolding follow
silent p (Event.mqtt_init r) h = absurd h
silent p (Event.mqtt_connect r) h = absurd h
silent p (Event.mqtt_loop r) h = absurd h
silent p (Event.mqtt_connected r) h = absurd h
silent p (Event.mqtt_disconnect r) h = absurd h
silent p (Event.mqtt_deinit r) h = absurd h
silent p (Event.sleep n) h = absurd h
silent p (Event.property_report q r) h = absurd h
silent p (Event.property_report_with_ack q r) h = absurd h
silent p _ h = refl

pub quiet :
    {env : Env} {A : Type 0} {p : Phase} {s : Sys} {r : Outcome A}
    → Walk env Local ⊥ s r
    → In p s
    → Obeys (Still p) r
quiet {p = p} walk i = Walk-Obeys (silent p) walk i

module _ (env : Env) where
  callbacks-Obeys :
      (p : Phase) (cs : List Callback) (s : Sys)
      → is_open p ≡ true
      → In p s
      → Obeys (Still p) (run_callbacks env cs s)
  callbacks-Obeys p cs s within i =
      Walk-Obeys {env = env} {Allowed = Passive p} (λ _ h. h)
        (callbacks-Walk (silent p) (λ _ _. reports_stay p within) cs s) i

  loop-Obeys :
      (s : Sys)
      → In linked s
      → Obeys (λ ret q. q ≡ (if is_zero ret then linked else broken)) (tuya_mqtt_loop env s)
  unfolding tuya_mqtt_loop follow
  loop-Obeys s i =
      proceed (callbacks-Obeys linked _ s refl i) λ _ u j. call-Obeys env u j _ _ _ (λ _. refl)

  disconnect-Obeys :
      (s : Sys) (p : Phase)
      → is_open p ≡ true
      → In p s
      → Obeys (Still left) (tuya_mqtt_disconnect env s)
  unfolding tuya_mqtt_disconnect
  disconnect-Obeys s p within i =
      proceed (callbacks-Obeys p _ s within i)
        λ _ u j. call-Obeys env u j _ _ (λ _. left) (λ _. leaves_open p within)

  time-Obeys : (s : Sys) → In linked s → Obeys (Still linked) (send_current_time env s)
  time-Obeys s i =
      Walk-Obeys {env = env} {Allowed = Passive linked} (λ _ h. h)
        (send_current_time-Walk (silent linked) (λ _ _. reports_stay linked refl)) i

  pub init-Obeys :
      (id secret : Option Bytes) (s : Sys)
      → In unopened s
      → Obeys
          (λ ret q. q ≡ (if is_zero ret then opened else init_failed))
          (init_tuya env id secret s)
  unfolding init_tuya follow
  init-Obeys id secret s i =
      bind (call-Obeys env s i _ _ (λ ret. if is_zero ret then opened else init_failed) (λ _. refl))
        λ ret u p j e. elim (Bool-cases (is_zero ret)) [
          | inr bad ↦ rw bad (log_pure env _ _ _ u j (e ∙ rw bad refl))
          | inl ok ↦ rw ok (returns p j (e ∙ rw ok refl))
        ]

  retry-Obeys :
      (rounds seconds : ℕ) (ret : ℤ) (s : Sys)
      → In (after_connect ret) s
      → Obeys (λ r q. q ≡ after_connect r) (retry_connect env rounds seconds ret s)
  unfolding retry_connect follow
  retry-Obeys zero seconds ret s i = returns _ i refl
  retry-Obeys (suc rounds) seconds ret s i =
      if-Obeys (not (is_zero ret) && s.keep_running == 1) _ _
        (λ go. proceed (quiet {env = env} (told own _ tt) i) λ _ u j.
          let k : In opened u =
            moved u (ap (λ (b : Bool). if b then linked else opened) (refused _ _ go)) j in
          proceed (tell-Obeys env u k (Event.sleep seconds) opened refl) λ _ v l.
            bind (call-Obeys env v l _ _ after_connect (λ _. refl))
              λ ret' w q m e. retry-Obeys rounds _ ret' w (moved w e m))
        λ _. returns _ i refl

  settle-Obeys : (rounds : ℕ) (s : Sys) → In linked s → Obeys IsReady (settle env rounds s)
  unfolding settle
  settle-Obeys zero s i = returns linked i (λ _. refl, refl)
  settle-Obeys (suc rounds) s i =
      if-Obeys (s.keep_running == 1) _ _
        (λ _. bind (loop-Obeys s i) λ ret u q j e. elim (Bool-cases (is_zero ret)) [
          | inr bad ↦ rw bad (log_pure env _ _ _ u j (λ z. absurd (cc), rw (e, bad) refl))
          | inl ok ↦ rw ok (settle-Obeys rounds u (moved u (e ∙ rw ok refl) j))
        ])
        λ _. returns linked i (λ _. refl, refl)

  pub connect-Obeys : (s : Sys) → In opened s → Obeys IsReady (connect_to_tuya env s)
  unfolding connect_to_tuya follow
  connect-Obeys s i = bind (call-Obeys env s i _ _ after_connect (λ _. refl)) λ first u p j e.
      bind (retry-Obeys 10 2 first u (moved u e j)) λ ret v q k e'.
        elim (Bool-cases (is_zero ret)) [
          | inr bad ↦ rw bad (log_pure env _ _ _ v k (λ z. absurd (cc), rw (e', bad) refl))
          | inl ok ↦ rw ok (
              proceed (quiet {env = env} (told own _ tt) (moved v (e' ∙ rw ok refl) k))
                λ _ w l. settle-Obeys 5 w l)
        ]

  pub main_loop-Obeys :
      (fuel count : ℕ) (s : Sys)
      → In linked s
      → Obeys (λ _ q. is_open q ≡ true) (main_loop_from env fuel count s)
  unfolding main_loop_from follow
  main_loop-Obeys zero count s i = looping i
  main_loop-Obeys (suc fuel) count s i =
      if-Obeys (s.keep_running == 1) _ _
        (λ _. bind (loop-Obeys s i) λ ret u q j e. elim (Bool-cases (is_zero ret)) [
          | inr bad ↦ rw bad (log_pure env _ _ _ u j (rw (e, bad) refl))
          | inl ok ↦
              let k : In linked u = moved u (e ∙ rw ok refl) j in
              rw ok (
                proceed (tell-Obeys env u k (Event.sleep 10) linked refl) λ _ v l.
                  proceed (time-Obeys v l) λ sent w m.
                    if-Obeys (not (is_zero sent)) _ _
                      (λ _. proceed (quiet {env = env} (told own _ tt) m) λ _ x n.
                        if-Obeys (count + 1 == 10) _ _ (λ _. returns linked n refl)
                          λ _. main_loop-Obeys fuel (count + 1) x n)
                      λ _. main_loop-Obeys fuel 0 w m)
        ])
        λ _. returns linked i refl

  pub cleanup-Obeys :
      (ret : ℤ) (p : Phase) (s : Sys)
      → is_open p ≡ true
      → In p s
      → Obeys (Still closed) (cleanup env ret s)
  unfolding cleanup follow
  cleanup-Obeys ret p s within i =
      proceed (quiet {env = env} (if-Walk (s.keep_running == 0) _ skip (told own _ tt) pure-Walk) i)
        λ _ u j. proceed (quiet {env = env} (told own _ tt) j) λ _ v k.
          proceed (disconnect-Obeys v p within k) λ _ w l.
            proceed (call-Obeys env w l _ _ (λ _. closed) (λ _. refl)) λ _ x m.
              proceed (quiet (free_format-Walk own) m) λ _ y n.
                proceed (quiet {env = env} (told own _ tt) n) λ _ z o. returns closed o refl
