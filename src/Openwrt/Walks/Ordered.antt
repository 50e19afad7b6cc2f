-- ===== src/Openwrt/Walks/Ordered.antt =====
-- openwrt/tuya_daemon/src/connection.c: the order of the calls to the MQTT library.
pub mod Daemon
use tuya_daemon.Base.{
  arith, ℕ, zero, suc, ◌+◌, ◌≡◌, refl, sym, ◌∙◌, ap, ◌⊎◌, inl, inr, Bool, true, false, not, ◌&&◌,
  Option, none, some, ℤ, pos, minus_one, minus_two, is_zero, ◌==◌, if◌then◌else◌, Bool-cases, subst,
  List, String, Memᴰ,
}
use tuya_daemon.World.{
  CharPtr, Config, Bytes, Event, Env, Sys, History, Cmd, Callback, Message, message, Outcome,
  sigint, sigterm, pure, skip, syslog, ◌>>◌, log_err,
}
use tuya_daemon.World.Steps
use tuya_daemon.World.Steps.{
  Walk, pure-Walk, if-Walk, free-Walk, strdup-Walk, sigaction-Walk, configure-Walk, step, next,
  here, configure,
}
use tuya_daemon.World.Protocol.{
  Phase, unopened, init_failed, opened, linked, broken, left, closed, is_open, Use, use_of, follow,
  In, moved, Obeys, returns, looping, Still, mono, bind, proceed, if-Obeys, tell-Obeys, call-Obeys,
  Walk-Obeys,
}
use tuya_daemon.World.Protocol.{
  Passive, reports_stay, other_stays, leaves_open, after_connect, refused, IsReady, log_pure,
}
use tuya_daemon.Openwrt.Args.{str_to_digit}
use tuya_daemon.Openwrt.Signals.{signal_handler}
use tuya_daemon.Openwrt.Connection.{
  mqtt_config, run_callbacks, tuya_mqtt_loop, tuya_mqtt_disconnect, tuya_mqtt_init,
  init_connections, retry_connect, wait_connected, connect_to_tuya,
}
use tuya_daemon.Openwrt.SendInfo.{send_memory_info}
use tuya_daemon.Openwrt.Main.{
  exit_failure, main_loop_from, main_loop, serve, run_mqtt, configured, run_daemon, main,
  valid_level, all_options,
}
use tuya_daemon.Openwrt.Walks.{
  Ordinary, own, told, called, logged, ubus_connect-Walk, uci_get_option-Walk,
}
use tuya_daemon.Openwrt.Walks.Senders.{send_memory_info-Walk}
use tuya_daemon.Openwrt.Walks.Callbacks.{Delivers, in_loop, at_disconnect, callbacks-Walk, stops}

-- What is no call to the library leaves every phase as it is.
pub silent : (p : Phase) (e : Event) → Ordinary e → follow p (use_of e) ≡ some p
unfolding follow
silent p (Event.mqtt_init r) h = absurd h
silent p (Event.mqtt_connect r) h = absurd h
silent p (Event.mqtt_loop r) h = absurd h
silent p (Event.mqtt_connected r) h = absurd h
silent p (Event.mqtt_disconnect r) h = absurd h
silent p (Event.mqtt_deinit r) h = absurd h
silent p (Event.sleep n) h = absurd h
silent p (Event.property_report q r) h = absurd h
silent p (Event.property_report_with_ack q r) h = absurd h
silent p _ h = refl

-- What `init_connections` leaves, by its status.
abbrev pub Begun : ℤ → Phase → Type 0
Begun status q = (q ≡ opened) ⊎ ((is_zero status ≡ false) × (q ≡ init_failed))

pub begun_open : (q : Phase) (status : ℤ) → Begun status q → is_open q ≡ true
begun_open q status (inl e) = rw e refl
begun_open q status (inr (_, e)) = rw e refl

pub begun_opened :
    (q : Phase) (status : ℤ) → not (is_zero status) ≡ false → Begun status q → q ≡ opened
begun_opened q status ok (inl e) = e
begun_opened q status ok (inr (bad, _)) = absurd (ground arith)

module _ {env : Env} where
  pub quiet :
      {A : Type 0} {p : Phase} {s : Sys} {r : Outcome A}
      → Walk env Ordinary ⊥ s r
      → In p s
      → Obeys (Still p) r
  quiet {p = p} walk i = Walk-Obeys (silent p) walk i

  callbacks-Passive :
      (p : Phase) (cs : List Callback) (s : Sys)
      → is_open p ≡ true
      → ((msg : Message) → Memᴰ (message msg) cs → Delivers env msg)
      → Walk env (Passive p) ⊥ s (run_callbacks env cs s)
  callbacks-Passive p cs s within given =
      callbacks-Walk (silent p) (λ _ _. reports_stay p within) (λ _ _. other_stays p)
        (λ _ _ _ _ _ _ _. other_stays p) cs s given

module _ (env : Env) where
  pub loop-Obeys :
      (s : Sys)
      → In linked s
      → Obeys (λ ret q. q ≡ (if is_zero ret then linked else broken)) (tuya_mqtt_loop env s)
  unfolding tuya_mqtt_loop follow
  loop-Obeys s i =
      proceed
        (Walk-Obeys (λ _ h. h)
          (callbacks-Passive linked (env.loop_callbacks s.history) s refl λ msg. in_loop s.history)
          i)
        λ _ u j. call-Obeys env u j _ _ _ (λ _. refl)

  pub disconnect-Obeys :
      (s : Sys) (p : Phase)
      → is_open p ≡ true
      → In p s
      → Obeys (Still left) (tuya_mqtt_disconnect env s)
  unfolding tuya_mqtt_disconnect
  disconnect-Obeys s p within i =
      proceed
        (Walk-Obeys (λ _ h. h)
          (callbacks-Passive p (env.disconnect_callbacks s.history) s within
            λ msg. at_disconnect s.history)
          i)
        λ _ u j. call-Obeys env u j _ _ (λ _. left) (λ _. leaves_open p within)

  pub memory-Obeys :
      (c : ℕ) (s : Sys) → In linked s → Obeys (Still linked) (send_memory_info env c s)
  memory-Obeys c s i =
      Walk-Obeys {Allowed = Passive linked} (λ _ h. h)
        (send_memory_info-Walk (silent linked) (λ _ _. reports_stay linked refl) c
          (λ _ _. other_stays linked))
        i

  init-Obeys :
      (config : Config) (s : Sys)
      → In unopened s
      → Obeys
          (λ ret q. q ≡ (if is_zero ret then opened else init_failed))
          (tuya_mqtt_init env config s)
  unfolding tuya_mqtt_init follow
  init-Obeys config s i =
      bind (call-Obeys env s i _ _ (λ ret. if is_zero ret then opened else init_failed) (λ _. refl))
        λ ret u p j e.
          proceed (quiet {env = env} (if-Walk (is_zero ret) _ skip (configure-Walk _) pure-Walk) j)
            λ _ v k. returns p k e

  -- The phase after `init_connections`.
  pub connections-Obeys :
      (id secret : Bytes) (s : Sys)
      → In unopened s
      → Obeys (λ r q. Begun r.0 q) (init_connections env id secret s)
  unfolding init_connections
  connections-Obeys id secret s i = bind (init-Obeys (mqtt_config id secret) s i) λ ret u p j e.
      elim (Bool-cases (is_zero ret)) [
        | inr bad ↦ rw bad (log_pure env _ _ _ u j (inr (refl, e ∙ rw bad refl)))
        | inl ok ↦ rw ok (
            proceed (quiet (ubus_connect-Walk own) j) λ ctx v k.
              if-Obeys (ctx == 0) _ _ (λ _. log_pure env _ _ _ v k (inl (e ∙ rw ok refl)))
                λ _. returns p k (inl (e ∙ rw ok refl)))
      ]

  retry-Obeys :
      (rounds seconds : ℕ) (ret : ℤ) (s : Sys)
      → In (after_connect ret) s
      → Obeys (λ r q. q ≡ after_connect r) (retry_connect env rounds seconds ret s)
  unfolding retry_connect follow
  retry-Obeys zero seconds ret s i = returns _ i refl
  retry-Obeys (suc rounds) seconds ret s i =
      if-Obeys (not (is_zero ret) && s.keep_running == 1) _ _
        (λ go. proceed (quiet (told own _ tt) i) λ _ u j.
          let k : In opened u =
            subst (λ (b : Bool). In (if b then linked else opened) u) (refused _ _ go) j in
          proceed (tell-Obeys env u k (Event.sleep seconds) opened refl) λ _ v l.
            bind (call-Obeys env v l _ _ after_connect (λ _. refl))
              λ ret' w q m e. retry-Obeys rounds _ ret' w (moved w e m))
        λ _. returns _ i refl

  wait-Obeys : (fuel : ℕ) (s : Sys) → In linked s → Obeys IsReady (wait_connected env fuel s)
  unfolding wait_connected follow
  wait-Obeys zero s i = looping i
  wait-Obeys (suc fuel) s i = proceed (call-Obeys env s i _ _ (λ _. linked) (λ _. refl)) λ up u j.
      if-Obeys (not up && u.keep_running == 1) _ _
        (λ _. bind (loop-Obeys u j) λ ret v q k e. elim (Bool-cases (is_zero ret)) [
          | inr bad ↦ rw bad (log_pure env _ _ _ v k (λ z. absurd (cc), rw (e, bad) refl))
          | inl ok ↦ rw ok (wait-Obeys fuel v (moved v (e ∙ rw ok refl) k))
        ])
        λ _. returns linked j (λ _. refl, refl)

  pub connect-Obeys :
      (fuel : ℕ) (s : Sys) → In opened s → Obeys IsReady (connect_to_tuya env fuel s)
  unfolding connect_to_tuya follow
  connect-Obeys fuel s i = bind (call-Obeys env s i _ _ after_connect (λ _. refl)) λ first u p j e.
      bind (retry-Obeys 10 2 first u (moved u e j)) λ ret v q k e'.
        elim (Bool-cases (is_zero ret)) [
          | inr bad ↦ rw bad (log_pure env _ _ _ v k (λ z. absurd (cc), rw (e', bad) refl))
          | inl ok ↦ rw ok (
              proceed (quiet (told own _ tt) (moved v (e' ∙ rw ok refl) k))
                λ _ w l. wait-Obeys fuel w l)
        ]
