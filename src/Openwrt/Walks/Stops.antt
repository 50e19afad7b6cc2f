-- ===== src/Openwrt/Walks/Stops.antt =====
-- openwrt/tuya_daemon/src/connection.c and main.c: a signal ends the daemon. The loops are counted
-- by the events of the run.
use tuya_daemon.Base.{
  ℕ, zero, suc, ◌+◌, ◌≤◌, ◌≡◌, Bool, true, not, ◌&&◌, arith, length, is_zero, ◌==◌, String,
}
use tuya_daemon.World.{Signal, Env, Sys, pure, ◌>>◌, Bytes, syslog, skip, CharPtr, strdup}
use tuya_daemon.World.Steps.{Walk, pure-Walk, if-Walk, bind, free-Walk, strdup-Walk, call-Walk}
use tuya_daemon.World.Steps.Invariants.{Armed, Arrives, running-before}
use tuya_daemon.World.Steps.Finish.{
  Finishes, whole, if-Finishes, option-Finishes, bind-Finishes, tell-Finishes, call-Finishes,
  pure-Finishes, then-Finishes, sigaction-Finishes,
}
use tuya_daemon.Openwrt.Connection.{wait_connected, connect_to_tuya}
use tuya_daemon.Openwrt.Main.{
  main_loop_from, serve, run_mqtt, configured, run_daemon, main, main_loop, valid_level,
  all_options,
}
use tuya_daemon.Openwrt.Walks.Daemon.{
  uci_free-Walk, connections-Walk, retry-Walk, connect-Walk, main_loop-Walk, serve-Walk,
  run_daemon-Walk,
}
use tuya_daemon.Openwrt.Walks.Callbacks.{
  Permitted, loop-Walk, ordinary, driving, disconnect-Walk, memory-Walk, stops,
}
use tuya_daemon.Openwrt.Walks.{logged, uci_get_option-Walk, Ordinary, told, own}
use tuya_daemon.Openwrt.Args.{str_to_digit}
use tuya_daemon.Openwrt.Signals.{signal_handler}

loop_running : (b : Bool) (n : ℕ) → (b && n == 1) ≡ true → (n == 1) ≡ true
loop_running b n h = ground arith

copied : {env : Env} {s : Sys} (name : String) → Walk env Ordinary ⊥ s (strdup env name s)
copied name = strdup-Walk name

log-Finishes :
    {A : Type 0} (env : Env) (p : ℕ) (t : String) (a : A) (s : Sys)
    → Finishes ((syslog env p t >> pure a) s)
log-Finishes env p t a s = whole (logged {env = env} {Allowed = Ordinary} own p t a)

module _ {env : Env} {g : Signal} {moment : ℕ} (signal : Arrives env g moment) where
  wait-Finishes :
      (fuel : ℕ) (s : Sys)
      → Armed g moment s
      → moment ≤ length s.history + fuel
      → Finishes (wait_connected env (suc fuel) s)
  unfolding wait_connected
  wait-Finishes zero s armed enough = call-Finishes signal _ _ armed λ up u armed' grown.
      if-Finishes (not up && u.keep_running == 1) _ _
        (λ go. absurd (
          omega
            (arith, running-before g moment u armed' (loop_running (not up) u.keep_running go))))
        (λ _. pure-Finishes)
  wait-Finishes (suc fuel) s armed enough = call-Finishes signal _ _ armed λ up u armed' grown.
      if-Finishes (not up && u.keep_running == 1) _ _
        (λ go. bind-Finishes signal loop-Walk armed' λ ret v armed'' longer.
          if-Finishes (not (is_zero ret)) _ _ (λ _. log-Finishes env _ _ _ _)
            λ _. wait-Finishes fuel v armed'' (omega arith))
        (λ _. pure-Finishes)

  connect-Finishes :
      (fuel : ℕ) (s : Sys)
      → Armed g moment s
      → moment ≤ length s.history + fuel
      → Finishes (connect_to_tuya env (suc fuel) s)
  unfolding connect_to_tuya
  connect-Finishes fuel s armed enough = call-Finishes signal _ _ armed λ first u a1 l1.
      bind-Finishes signal (retry-Walk 10 2 first u) a1 λ ret v a2 l2.
        if-Finishes (not (is_zero ret)) _ _ (λ _. log-Finishes env _ _ _ _)
          λ _. tell-Finishes signal _ _ a2 λ w a3 l3. wait-Finishes fuel w a3 (omega arith)

  main_loop-Finishes :
      (fuel count c : ℕ) (s : Sys)
      → Armed g moment s
      → moment ≤ length s.history + fuel
      → Finishes (main_loop_from env (suc fuel) count c s)
  unfolding main_loop_from
  main_loop-Finishes zero count c s armed enough =
      if-Finishes (s.keep_running == 1) _ _
        (λ go. absurd (omega (arith, running-before g moment s armed (loop_running true _ go))))
        (λ _. pure-Finishes)
  main_loop-Finishes (suc fuel) count c s armed enough =
      if-Finishes (s.keep_running == 1) _ _
        (λ go. bind-Finishes signal loop-Walk armed λ ret u a1 l1.
          if-Finishes (not (is_zero ret)) _ _ (λ _. log-Finishes env _ _ _ _)
            λ _. tell-Finishes signal _ _ a1 λ v a2 l2.
              bind-Finishes signal (memory-Walk c) a2 λ sent w a3 l3.
                if-Finishes (not sent) _ _
                  (λ _. tell-Finishes signal _ _ a3 λ x a4 l4.
                    if-Finishes (count + 1 == 10) _ _ (λ _. log-Finishes env _ _ _ _)
                      λ _. main_loop-Finishes fuel (count + 1) c x a4 (omega arith))
                  λ _. main_loop-Finishes fuel 0 c w a3 (omega arith))
        (λ _. pure-Finishes)

  serve-Finishes :
      (fuel c : ℕ) (s : Sys)
      → Armed g moment s
      → moment ≤ length s.history + fuel
      → Finishes (serve env (suc fuel) c s)
  unfolding serve main_loop
  serve-Finishes fuel c s armed enough =
      then-Finishes signal (connect-Walk _) (connect-Finishes fuel s armed enough) armed
        λ ret u a1 l1.
          if-Finishes (not (is_zero ret)) _ _ (λ _. pure-Finishes)
            λ _.
              then-Finishes signal (main_loop-Walk _ 0 c u)
                (main_loop-Finishes fuel 0 c u a1 (omega arith)) a1
                λ good v a2 l2. whole {Allowed = Permitted env} (
                  bind (if-Walk (v.keep_running == 0) _ skip (told ordinary _ tt) pure-Walk)
                    λ _ w. pure-Walk)

  run_mqtt-Finishes :
      (fuel : ℕ) (id secret : Bytes) (s : Sys)
      → Armed g moment s
      → moment ≤ length s.history + fuel
      → Finishes (run_mqtt env (suc fuel) id secret s)
  unfolding run_mqtt
  run_mqtt-Finishes fuel id secret s armed enough =
      bind-Finishes signal
        (connections-Walk {Allowed = Permitted env} ordinary (λ _. driving _ tt) id secret) armed
        λ r u a1 l1.
          then-Finishes signal
            (if-Walk (not (is_zero r.0)) (pure r.0) _ pure-Walk (serve-Walk _ r.1))
            (if-Finishes (not (is_zero r.0)) (pure r.0) _ (λ _. pure-Finishes)
              (λ _. serve-Finishes fuel r.1 u a1 (omega arith)))
            a1
            λ ret v a2 l2. whole {Allowed = Permitted env} (
              bind disconnect-Walk λ _ w. bind (call-Walk _ _ (λ _. driving _ tt)) λ _ x. pure-Walk)

  configured-Finishes :
      (fuel : ℕ) (id secret level : Bytes) (s : Sys)
      → Armed g moment s
      → moment ≤ length s.history + fuel
      → Finishes (configured env (suc fuel) id secret level s)
  unfolding configured
  configured-Finishes fuel id secret level s armed enough =
      option-Finishes (valid_level (str_to_digit level)) _ _ (log-Finishes env _ _ _ _) λ l.
        tell-Finishes signal _ _ armed λ u a1 l1.
          tell-Finishes signal _ _ a1 λ v a2 l2. run_mqtt-Finishes fuel id secret v a2 (omega arith)

  run_daemon-Finishes :
      (fuel : ℕ) (have : Bool) (n0 n1 n2 n3 : CharPtr) (u : Sys)
      → Armed g moment u
      → moment ≤ length u.history + fuel
      → Finishes (run_daemon env (suc fuel) have n0 n1 n2 n3 u)
  unfolding run_daemon
  run_daemon-Finishes fuel have n0 n1 n2 n3 u a enough =
      if-Finishes (not have) _ _ (λ _. log-Finishes env _ _ _ _)
        λ _. bind-Finishes signal (uci_get_option-Walk own n0 _) a λ id v a0 l0.
          bind-Finishes signal (uci_get_option-Walk own n1 _) a0 λ secret w a1 l1.
            bind-Finishes signal (uci_get_option-Walk own n2 _) a1 λ product x a2 l2.
              bind-Finishes signal (uci_get_option-Walk own n3 _) a2 λ level y a3 l3.
                option-Finishes (all_options id secret product level) _ _ pure-Finishes
                  λ o. configured-Finishes fuel _ _ _ y a3 (omega arith)

  -- If SIGINT or SIGTERM arrives at the end of some call after the handlers have been installed,
  -- and the fuel exceeds the number of the calls up to that moment, then `main` of the OpenWrt
  -- daemon comes to its end: it is in no loop when the fuel is gone, whatever the libraries answer.
  pub main_signalled-Finishes :
      (fuel : ℕ) (s : Sys)
      → length s.history + 3 ≤ moment
      → moment ≤ length s.history + fuel
      → Finishes (main env (suc fuel) s)
  unfolding main
  main_signalled-Finishes fuel s late enough =
      sigaction-Finishes signal s signal_handler _ stops late λ b armed l0.
        tell-Finishes signal _ _ armed λ c a1 l1. bind-Finishes signal (copied _) a1 λ n0 d a2 l2.
          bind-Finishes signal (copied _) a2 λ n1 e a3 l3.
            bind-Finishes signal (copied _) a3 λ n2 f a4 l4.
              bind-Finishes signal (copied _) a4 λ n3 h a5 l5.
                call-Finishes signal _ _ a5 λ have h1 a7 l7.
                  then-Finishes signal (run_daemon-Walk _ have n0 n1 n2 n3)
                    (run_daemon-Finishes fuel have n0 n1 n2 n3 h1 a7 (omega arith)) a7
                    λ ret i a6 l6. whole {Allowed = Permitted env} (
                      bind (told ordinary _ tt) λ _ j. bind (free-Walk n0) λ _ k.
                        bind (free-Walk n1) λ _ l. bind (free-Walk n2) λ _ m.
                          bind (free-Walk n3) λ _ n.
                            bind (uci_free-Walk ordinary have)
                              λ _ o. bind (told ordinary _ tt) λ _ p. pure-Walk)
