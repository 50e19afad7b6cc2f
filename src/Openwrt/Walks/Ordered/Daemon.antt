-- ===== src/Openwrt/Walks/Ordered/Daemon.antt =====
-- openwrt/tuya_daemon/src/main.c: the order of the calls to the MQTT library.
use tuya_daemon.Openwrt.Walks.Daemon.{uci_free-Walk}
use tuya_daemon.Base.{
  Bool, ℕ, zero, suc, ◌+◌, ◌≡◌, refl, ◌∙◌, ap, ◌⊎◌, inl, inr, true, not, Option, none, some, ℤ,
  is_zero, ◌==◌, Bool-cases, Option-cases,
}
use tuya_daemon.World.{
  CharPtr, Bytes, Event, Env, Sys, Cmd, sigint, sigterm, pure, skip, syslog, ◌>>◌, tell, log_err,
  log_debug, log_upto,
}
use tuya_daemon.World.Steps
use tuya_daemon.World.Steps.{
  Walk, pure-Walk, if-Walk, free-Walk, strdup-Walk, sigaction-Walk, configure-Walk, step, next,
  here, configure,
}
use tuya_daemon.World.Protocol.{
  Phase, unopened, opened, linked, closed, is_open, follow, In, moved, Obeys, returns, looping,
  Still, mono, bind, proceed, if-Obeys, tell-Obeys, call-Obeys,
}
use tuya_daemon.World.Protocol.{log_pure}
use tuya_daemon.Openwrt.Args.{str_to_digit}
use tuya_daemon.Openwrt.Signals.{signal_handler}
use tuya_daemon.Openwrt.Main.{
  exit_failure, main_loop_from, main_loop, serve, run_mqtt, configured, run_daemon, main,
  valid_level, all_options, priority_at,
}
use tuya_daemon.Openwrt.Walks.{own, told, called, uci_get_option-Walk}
use tuya_daemon.Openwrt.Walks.Callbacks.{stops}
use tuya_daemon.Openwrt.Walks.Ordered.{
  begun_open, begun_opened, quiet, loop-Obeys, disconnect-Obeys, memory-Obeys, connections-Obeys,
  connect-Obeys,
}

-- The ends of `main`: the library is closed, or it has not been opened and the result is
-- EXIT_FAILURE.
abbrev pub HasEnded : ℤ → Phase → Type 0
HasEnded ret p = (p ≡ closed) ⊎ ((ret ≡ exit_failure) × (p ≡ unopened))

module _ (env : Env) where
  main_loop-Obeys :
      (fuel count c : ℕ) (s : Sys)
      → In linked s
      → Obeys (λ _ q. is_open q ≡ true) (main_loop_from env fuel count c s)
  unfolding main_loop_from follow
  main_loop-Obeys zero count c s i = looping i
  main_loop-Obeys (suc fuel) count c s i =
      if-Obeys (s.keep_running == 1) _ _
        (λ _. bind (loop-Obeys env s i) λ ret u q j e. elim (Bool-cases (is_zero ret)) [
          | inr bad ↦ rw bad (log_pure env _ _ _ u j (rw (e, bad) refl))
          | inl ok ↦
              let k : In linked u = moved u (e ∙ rw ok refl) j in
              rw ok (
                proceed (tell-Obeys env u k (Event.sleep 10) linked refl) λ _ v l.
                  proceed (memory-Obeys env c v l) λ sent w m.
                    if-Obeys (not sent) _ _
                      (λ _. proceed (quiet {env = env} (told own _ tt) m) λ _ x n.
                        if-Obeys (count + 1 == 10) _ _ (λ _. log_pure env _ _ _ x n refl)
                          λ _. main_loop-Obeys fuel (count + 1) c x n)
                      λ _. main_loop-Obeys fuel 0 c w m)
        ])
        λ _. returns linked i refl

  serve-Obeys :
      (fuel c : ℕ) (s : Sys) → In opened s → Obeys (λ _ q. is_open q ≡ true) (serve env fuel c s)
  unfolding serve main_loop
  serve-Obeys fuel c s i = bind (connect-Obeys env fuel s i) λ ret u p j (ready, within).
      elim (Bool-cases (is_zero ret)) [
        | inr bad ↦ rw bad (returns p j within)
        | inl ok ↦ rw ok (
            bind (main_loop-Obeys fuel 0 c u (moved u (ready ok) j)) λ good v q k within'.
              bind (quiet (if-Walk (v.keep_running == 0) _ skip (told own _ tt) pure-Walk) k)
                λ _ w q' l e. returns q' l (ap is_open e ∙ within'))
      ]

  run_mqtt-Obeys :
      (fuel : ℕ) (id secret : Bytes) (s : Sys)
      → In unopened s
      → Obeys (Still closed) (run_mqtt env fuel id secret s)
  unfolding run_mqtt follow
  run_mqtt-Obeys fuel id secret s i = bind (connections-Obeys env id secret s i) λ r u p j begun.
      bind
        (if-Obeys {Q = λ _ q. is_open q ≡ true} (not (is_zero r.0)) (pure r.0) (serve env fuel r.1)
          (λ _. returns p j (begun_open p r.0 begun))
          λ ok. serve-Obeys fuel r.1 u (moved u (begun_opened p r.0 ok begun) j))
        λ ret v q k within. proceed (disconnect-Obeys env v q within k) λ _ w l.
          proceed (call-Obeys env w l _ _ (λ _. closed) (λ _. refl)) λ _ x m. returns closed m refl

  -- At the label `cleanup_end`: the library is closed, or it has never been called and `main` fails.
  configured-Obeys :
      (fuel : ℕ) (id secret level : Bytes) (s : Sys)
      → In unopened s
      → Obeys HasEnded (configured env fuel id secret level s)
  unfolding configured
  configured-Obeys fuel id secret level s i = go (valid_level (str_to_digit level))
    where
      go :
          (o : Option ℕ)
          → Obeys HasEnded (
              (elim o as (λ _. Cmd ℤ) [
                | none ↦ do
                  syslog env log_err "Unrecognized value for option 'log_level': %s"
                  pure exit_failure
                | some log_level ↦ do
                  tell env (Event.setlogmask (log_upto (priority_at log_level)))
                  syslog env log_debug
                      "Options: device ID: %s, device secret: %s, product ID: %s, log_level: %d"
                  run_mqtt env fuel id secret
              ])
                s)
      go none = log_pure env _ _ _ s i (inr (refl, refl))
      go (some l) = proceed (quiet {env = env} (told own _ tt) i) λ _ u j.
          proceed (quiet {env = env} (told own _ tt) j)
            λ _ v k. mono (run_mqtt-Obeys fuel id secret v k) λ _ q e. inl e

  run_daemon-Obeys :
      (fuel : ℕ) (have : Bool) (n0 n1 n2 n3 : CharPtr) (t : Sys)
      → In unopened t
      → Obeys HasEnded (run_daemon env fuel have n0 n1 n2 n3 t)
  unfolding run_daemon
  run_daemon-Obeys fuel have n0 n1 n2 n3 t j =
      if-Obeys (not have) _ _ (λ _. log_pure env _ _ _ t j (inr (refl, refl)))
        λ _. proceed (quiet (uci_get_option-Walk own n0 _) j) λ id u k.
          proceed (quiet (uci_get_option-Walk own n1 _) k) λ secret v l.
            proceed (quiet (uci_get_option-Walk own n2 _) l) λ product w m.
              proceed (quiet (uci_get_option-Walk own n3 _) m) λ level x n.
                elim (Option-cases (all_options id secret product level)) [
                  | inl missing ↦ rw missing (returns unopened n (inr (refl, refl)))
                  | inr (o, all) ↦ rw all (configured-Obeys fuel _ _ _ x n)
                ]

  -- From every state in which libtuya has not been used, in every environment and whatever the
  -- outcome: the calls of `main` of the OpenWrt daemon follow the protocol of libtuya:
  -- `tuya_mqtt_init` first, attempts to connect and sleeps until one succeeds,
  -- `tuya_mqtt_connected`, `tuya_mqtt_loop` and sleeps only from then on and until a
  -- `tuya_mqtt_loop` fails, reports only between `tuya_mqtt_init` and `tuya_mqtt_disconnect`, which
  -- comes once, and then `tuya_mqtt_deinit` as the last. If `main` returns, the library is closed,
  -- or it has not been opened and the result is EXIT_FAILURE; if `main` is in a loop when the fuel
  -- is gone, `tuya_mqtt_connect` has succeeded and no `tuya_mqtt_loop` has failed.
  pub main-Obeys : (fuel : ℕ) (s : Sys) → In unopened s → Obeys HasEnded (main env fuel s)
  unfolding main
  main-Obeys fuel s i =
      proceed
        (quiet
          (Steps.bind (sigaction-Walk sigint signal_handler tt stops)
            λ _ a. sigaction-Walk sigterm signal_handler tt stops)
          i)
        λ _ b j. proceed (quiet {env = env} (told own _ tt) j) λ _ c k.
          proceed (quiet (strdup-Walk _) k) λ n0 d l. proceed (quiet (strdup-Walk _) l) λ n1 e m.
            proceed (quiet (strdup-Walk _) m) λ n2 f n. proceed (quiet (strdup-Walk _) n) λ n3 g o.
              proceed (quiet (called own _ _ (λ _. tt)) o) λ have g1 o1.
                bind (run_daemon-Obeys fuel have n0 n1 n2 n3 g1 o1) λ ret h p q ended.
                  proceed (quiet {env = env} (told own _ tt) q) λ _ x r.
                    proceed (quiet (free-Walk n0) r) λ _ y t.
                      proceed (quiet (free-Walk n1) t) λ _ z u.
                        proceed (quiet (free-Walk n2) u) λ _ z1 v.
                          proceed (quiet (free-Walk n3) v) λ _ z2 w.
                            proceed (quiet {env = env} (uci_free-Walk own have) w) λ _ z3 w1.
                              proceed (quiet {env = env} (told own _ tt) w1)
                                λ _ z4 w2. returns p w2 ended
