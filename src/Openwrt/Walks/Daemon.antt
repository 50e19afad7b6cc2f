-- ===== src/Openwrt/Walks/Daemon.antt =====
-- The runs of the OpenWrt daemon as steps: the connection in connection.c, and
-- main.c.
use tuya_daemon.Base.{Bool, ℕ, zero, suc, ◌+◌, not, ◌&&◌, ℤ, is_zero, ◌==◌}
use tuya_daemon.World.{CharPtr, Config, Bytes, Event, Env, Sys, pure, skip, sigint, sigterm}
use tuya_daemon.World.Steps.{
  fault-Walk, Walk, pure-Walk, unfinished-Walk, if-Walk, option-Walk, bind, free-Walk, strdup-Walk,
  tell-Walk, call-Walk, sigaction-Walk, configure-Walk, next, here, configure, step,
}
use tuya_daemon.Openwrt.Connection.{
  tuya_mqtt_init, init_connections, retry_connect, wait_connected, connect_to_tuya,
}
use tuya_daemon.Openwrt.Main.{
  main_loop_from, main_loop, serve, run_mqtt, configured, run_daemon, uci_free_context, main,
  valid_level, all_options,
}
use tuya_daemon.Openwrt.Walks.{
  Ordinary, told, called, ubus_connect-Walk, uci_get_option-Walk, logged,
}
use tuya_daemon.Openwrt.Args.{str_to_digit}
use tuya_daemon.Openwrt.Signals.{signal_handler}
use tuya_daemon.Openwrt.Walks.Callbacks.{
  Permitted, ordinary, driving, stops, loop-Walk, disconnect-Walk, memory-Walk,
}

module _ {env : Env} {Allowed : Event → Type 0} {Loops : Type 0}
    (base : (e : Event) → Ordinary e → Allowed e)
    (init : (ret : ℤ) → Allowed (Event.mqtt_init ret)) where
  pub init-Walk :
      {s : Sys} (config : Config) → Walk env Allowed Loops s (tuya_mqtt_init env config s)
  unfolding tuya_mqtt_init
  init-Walk config =
      bind (call-Walk _ _ init)
        λ ret u. bind (if-Walk (is_zero ret) _ skip (configure-Walk _) pure-Walk) λ _ v. pure-Walk

  pub connections-Walk :
      {s : Sys} (id secret : Bytes) → Walk env Allowed Loops s (init_connections env id secret s)
  unfolding init_connections
  connections-Walk id secret = bind (init-Walk _) λ ret u.
      if-Walk (not (is_zero ret)) _ _ (logged base _ _ _) (
        bind (ubus_connect-Walk base)
          λ ctx v. if-Walk (ctx == 0) _ _ (logged base _ _ _) (step (next here (configure _))))

module _ {env : Env} {Loops : Type 0} where
  pub retry-Walk :
      (rounds seconds : ℕ) (ret : ℤ) (s : Sys)
      → Walk env (Permitted env) Loops s (retry_connect env rounds seconds ret s)
  unfolding retry_connect
  retry-Walk zero seconds ret s = pure-Walk
  retry-Walk (suc rounds) seconds ret s =
      if-Walk (not (is_zero ret) && s.keep_running == 1) _ _
        (bind (told ordinary _ tt) λ _ u.
          bind (tell-Walk (Event.sleep seconds) (driving _ tt))
            λ _ v. bind (call-Walk _ _ (λ _. driving _ tt)) λ ret' w. retry-Walk rounds _ ret' w)
        pure-Walk

pub uci_free-Walk :
    {env : Env} {Allowed : Event → Type 0} {Loops : Type 0}
    (base : (e : Event) → Ordinary e → Allowed e) {s : Sys} (have : Bool)
    → Walk env Allowed Loops s (uci_free_context env have s)
unfolding uci_free_context
uci_free-Walk base have = if-Walk have _ _ (told base _ tt) fault-Walk

module _ {env : Env} where
  pub wait-Walk : (fuel : ℕ) (s : Sys) → Walk env (Permitted env) Unit s (wait_connected env fuel s)
  unfolding wait_connected
  wait-Walk zero s = unfinished-Walk tt
  wait-Walk (suc fuel) s = bind (call-Walk _ _ (λ _. driving _ tt)) λ up u.
      if-Walk (not up && u.keep_running == 1) _ _
        (bind loop-Walk
          λ ret v. if-Walk (not (is_zero ret)) _ _ (logged ordinary _ _ _) (wait-Walk fuel v))
        pure-Walk

  pub connect-Walk :
      {s : Sys} (fuel : ℕ) → Walk env (Permitted env) Unit s (connect_to_tuya env fuel s)
  unfolding connect_to_tuya
  connect-Walk fuel = bind (call-Walk _ _ (λ _. driving _ tt)) λ first u.
      bind (retry-Walk 10 2 first u) λ ret v.
        if-Walk (not (is_zero ret)) _ _ (logged ordinary _ _ _)
          (bind (told ordinary _ tt) λ _ w. wait-Walk fuel w)

  pub main_loop-Walk :
      (fuel count c : ℕ) (s : Sys)
      → Walk env (Permitted env) Unit s (main_loop_from env fuel count c s)
  unfolding main_loop_from
  main_loop-Walk zero count c s = unfinished-Walk tt
  main_loop-Walk (suc fuel) count c s =
      if-Walk (s.keep_running == 1) _ _
        (bind loop-Walk λ ret u. if-Walk (not (is_zero ret)) _ _ (logged ordinary _ _ _) (
          bind (tell-Walk (Event.sleep 10) (driving _ tt)) λ _ v. bind (memory-Walk c) λ sent w.
            if-Walk (not sent) _ _
              (bind (told ordinary _ tt) λ _ x.
                if-Walk (count + 1 == 10) _ _ (logged ordinary _ _ _)
                  (main_loop-Walk fuel (count + 1) c x))
              (main_loop-Walk fuel 0 c w)))
        pure-Walk

  pub serve-Walk : {s : Sys} (fuel c : ℕ) → Walk env (Permitted env) Unit s (serve env fuel c s)
  unfolding serve main_loop
  serve-Walk fuel c = bind (connect-Walk fuel) λ ret u. if-Walk (not (is_zero ret)) _ _ pure-Walk (
      bind (main_loop-Walk fuel 0 c u) λ good v.
        bind (if-Walk (v.keep_running == 0) _ skip (told ordinary _ tt) pure-Walk) λ _ w. pure-Walk)

  pub run_mqtt-Walk :
      {s : Sys} (fuel : ℕ) (id secret : Bytes)
      → Walk env (Permitted env) Unit s (run_mqtt env fuel id secret s)
  unfolding run_mqtt
  run_mqtt-Walk fuel id secret =
      bind (connections-Walk ordinary (λ _. driving _ tt) id secret) λ r u.
        bind (if-Walk (not (is_zero r.0)) (pure r.0) _ pure-Walk (serve-Walk fuel r.1)) λ ret v.
          bind disconnect-Walk λ _ w. bind (call-Walk _ _ (λ _. driving _ tt)) λ _ x. pure-Walk

  configured-Walk :
      {s : Sys} (fuel : ℕ) (id secret level : Bytes)
      → Walk env (Permitted env) Unit s (configured env fuel id secret level s)
  unfolding configured
  configured-Walk fuel id secret level =
      option-Walk (valid_level (str_to_digit level)) _ _ (logged ordinary _ _ _) λ l.
        bind (told ordinary _ tt)
          λ _ u. bind (told ordinary _ tt) λ _ v. run_mqtt-Walk fuel id secret

  pub run_daemon-Walk :
      {s : Sys} (fuel : ℕ) (have : Bool) (a b c d : CharPtr)
      → Walk env (Permitted env) Unit s (run_daemon env fuel have a b c d s)
  unfolding run_daemon
  run_daemon-Walk fuel have a b c d = if-Walk (not have) _ _ (logged ordinary _ _ _) (
      bind (uci_get_option-Walk ordinary a _) λ id v.
        bind (uci_get_option-Walk ordinary b _) λ secret w.
          bind (uci_get_option-Walk ordinary c _) λ product x.
            bind (uci_get_option-Walk ordinary d _) λ level y.
              option-Walk (all_options id secret product level) _ _ pure-Walk
                λ o. configured-Walk fuel _ _ _)

  pub main-Walk : {s : Sys} (fuel : ℕ) → Walk env (Permitted env) Unit s (main env fuel s)
  unfolding main
  main-Walk fuel =
      bind
        (bind (sigaction-Walk sigint signal_handler (ordinary _ tt) stops)
          λ _ a. sigaction-Walk sigterm signal_handler (ordinary _ tt) stops)
        λ _ b. bind (told ordinary _ tt) λ _ c. bind (strdup-Walk _) λ n0 d.
          bind (strdup-Walk _) λ n1 e. bind (strdup-Walk _) λ n2 f. bind (strdup-Walk _) λ n3 g.
            bind (called ordinary _ _ (λ _. tt)) λ have h0.
              bind (run_daemon-Walk fuel have n0 n1 n2 n3) λ ret h. bind (told ordinary _ tt) λ _ i.
                bind (free-Walk n0) λ _ j. bind (free-Walk n1) λ _ k. bind (free-Walk n2) λ _ l.
                  bind (free-Walk n3) λ _ m.
                    bind (uci_free-Walk ordinary have)
                      λ _ n. bind (told ordinary _ tt) λ _ o. pure-Walk
