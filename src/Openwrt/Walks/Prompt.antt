-- ===== src/Openwrt/Walks/Prompt.antt =====
-- openwrt/tuya_daemon/src/connection.c and the main loop in main.c: how soon the daemon ends after a signal.
pub mod Daemon
use tuya_daemon.Base.{
  ℕ, zero, suc, ◌+◌, ◌≤◌, ◌≡◌, refl, Bool, true, not, ◌&&◌, arith, length, is_zero, ◌==◌, Option,
  none, some, List, Memᴰ, Option-cases, inl, inr, ℤ, String, if◌then◌else◌,
}
use tuya_daemon.World.{
  Signal, Event, Env, Sys, pure, ◌>>◌, Bytes, syslog, skip, CharPtr, Callback, Message, message,
  tell, Cmd, log_err, log_debug, log_upto, History,
}
use tuya_daemon.World.Steps.{Walk, pure-Walk, if-Walk, free-Walk, strdup-Walk, final}
use tuya_daemon.World.Steps
use tuya_daemon.World.Steps.Invariants.{Armed, Arrives}
use tuya_daemon.World.Steps.Prompt.{
  Kind, sleeping, connecting, looping, hit, same_kind, late, late-early, running-late, Prompt,
  Prompt-late, returns, loops, if-Prompt, quiet-Prompt, tell-Prompt, call-Prompt, bind,
}
use tuya_daemon.World.Steps.Rounds.{
  retry_round, main_round, still_running, Other, same-Other, log-Prompt,
}
use tuya_daemon.Openwrt.Connection.{
  run_callbacks, tuya_mqtt_loop, tuya_mqtt_disconnect, init_connections, retry_connect,
  wait_connected, connect_to_tuya,
}
use tuya_daemon.Openwrt.SendInfo.{send_memory_info}
use tuya_daemon.Openwrt.Main.{
  main_loop_from, serve, run_mqtt, configured, run_daemon, main, main_loop, valid_level,
  all_options, exit_failure, priority_at,
}
use tuya_daemon.Openwrt.Walks.{
  Ordinary, own, told, called, logged, uci_get_option-Walk, ubus_connect-Walk,
}
use tuya_daemon.Openwrt.Walks.Senders.{send_memory_info-Walk}
use tuya_daemon.Openwrt.Walks.Callbacks.{Delivers, in_loop, at_disconnect, callbacks-Walk, stops}
use tuya_daemon.Openwrt.Args.{str_to_digit}
use tuya_daemon.Openwrt.Signals.{signal_handler}

pub uncounted : (k : Kind) (e : Event) → Ordinary e → hit k e ≡ 0
uncounted k (Event.mqtt_connect r) h = absurd h
uncounted k (Event.mqtt_loop r) h = absurd h
uncounted k (Event.sleep n) h = absurd h
uncounted k _ h = refl

pub callbacks-Other :
    {env : Env} {Loops : Type 0} (k : Kind) (cs : List Callback) (s : Sys)
    → ((msg : Message) → Memᴰ (message msg) cs → Delivers env msg)
    → Walk env (Other k) Loops s (run_callbacks env cs s)
callbacks-Other k cs s given =
    callbacks-Walk (uncounted k) (λ _ _. refl) (λ _ _. refl) (λ _ _ _ _ _ _ _. refl) cs s given

module _ {env : Env} {g : Signal} {moment : ℕ} (signal : Arrives env g moment) (k : Kind) where
  loop-Prompt :
      (n : ℕ) (s : Sys)
      → Armed g moment s
      → late moment k s.history ≤ n
      → Prompt g moment k (n + same_kind k looping) (tuya_mqtt_loop env s)
  unfolding tuya_mqtt_loop
  loop-Prompt n s armed few =
      bind (omega arith)
        (quiet-Prompt signal {Loops = ⊥} n (same-Other k)
          (callbacks-Other k _ s λ msg. in_loop s.history) armed few)
        λ _ u a f. call-Prompt signal n (same_kind k looping) _ _ (λ _. refl) a f

  retry-Prompt :
      (rounds seconds : ℕ) (ret : ℤ) (s : Sys)
      → Armed g moment s
      → late moment k s.history ≤ 1
      → Prompt g moment k 1 (retry_connect env rounds seconds ret s)
  unfolding retry_connect
  retry-Prompt zero seconds ret s armed few = returns armed few
  retry-Prompt (suc rounds) seconds ret s armed few =
      if-Prompt (not (is_zero ret) && s.keep_running == 1) _ _
        (λ go.
          bind (omega arith)
            (quiet-Prompt signal 0 (uncounted k) (told {Loops = ⊥} own _ tt) armed (
              omega
                (arith, running-late g moment k s armed (still_running (not (is_zero ret)) _ go))))
            λ _ u a f.
              bind (omega (arith, retry_round k)) (tell-Prompt signal 0 (Event.sleep seconds) a f)
                λ _ v b f1.
                  bind (omega (arith, retry_round k))
                    (call-Prompt signal _ (same_kind k connecting) _ _ (λ _. refl) b f1)
                    λ ret' w c f2. retry-Prompt rounds _ ret' w c (omega (arith, retry_round k)))
        λ _. returns armed few

  wait-Prompt :
      (fuel : ℕ) (s : Sys)
      → Armed g moment s
      → late moment k s.history ≤ 1
      → Prompt g moment k 1 (wait_connected env fuel s)
  unfolding wait_connected
  wait-Prompt zero s armed few = loops few
  wait-Prompt (suc fuel) s armed few =
      bind (omega arith) (call-Prompt signal 1 0 _ _ (λ _. refl) armed few) λ up u a f.
        if-Prompt (not up && u.keep_running == 1) _ _
          (λ go.
            bind (omega (arith, main_round k))
              (loop-Prompt 0 u a
                (omega (arith, running-late g moment k u a (still_running (not up) _ go))))
              λ ret v b f1.
                if-Prompt (not (is_zero ret)) _ _
                  (λ _. log-Prompt signal k 1 _ _ _ v b (omega (arith, main_round k)))
                  λ _. wait-Prompt fuel v b (omega (arith, main_round k)))
          λ _. returns a f

  pub connect-Prompt :
      (fuel : ℕ) (s : Sys)
      → Armed g moment s
      → late moment k s.history ≤ 0
      → Prompt g moment k 1 (connect_to_tuya env fuel s)
  unfolding connect_to_tuya
  connect-Prompt fuel s armed few =
      bind (omega (arith, retry_round k))
        (call-Prompt signal 0 (same_kind k connecting) _ _ (λ _. refl) armed few)
        λ first u a f.
          bind (omega arith) (retry-Prompt 10 2 first u a (omega (arith, retry_round k)))
            λ ret v b f1.
              if-Prompt (not (is_zero ret)) _ _ (λ _. log-Prompt signal k 1 _ _ _ v b f1)
                λ _.
                  bind (omega arith)
                    (quiet-Prompt signal 1 (uncounted k) (told {Loops = ⊥} own _ tt) b f1)
                    λ _ w c f2. wait-Prompt fuel w c f2

  pub main_loop-Prompt :
      (fuel count c : ℕ) (s : Sys)
      → Armed g moment s
      → late moment k s.history ≤ 1
      → Prompt g moment k 1 (main_loop_from env fuel count c s)
  unfolding main_loop_from
  main_loop-Prompt zero count c s armed few = loops few
  main_loop-Prompt (suc fuel) count c s armed few =
      if-Prompt (s.keep_running == 1) _ _
        (λ go.
          bind (omega (arith, main_round k))
            (loop-Prompt 0 s armed (omega (arith, running-late g moment k s armed go)))
            λ ret u a f.
              if-Prompt (not (is_zero ret)) _ _
                (λ _. log-Prompt signal k 1 _ _ _ u a (omega (arith, main_round k)))
                λ _.
                  bind (omega (arith, main_round k)) (tell-Prompt signal _ (Event.sleep 10) a f)
                    λ _ v b f1.
                      bind (omega (arith, main_round k))
                        (quiet-Prompt signal {Loops = ⊥} _ (same-Other k)
                          (send_memory_info-Walk (uncounted k) (λ _ _. refl) c (λ _ _. refl)) b f1)
                        λ sent w d f2.
                          if-Prompt (not sent) _ _
                            (λ _.
                              bind (omega arith)
                                (quiet-Prompt signal 1 (uncounted k) (told {Loops = ⊥} own _ tt) d
                                  (omega (arith, main_round k)))
                                λ _ x e f3.
                                  if-Prompt (count + 1 == 10) _ _
                                    (λ _. log-Prompt signal k 1 _ _ _ x e f3)
                                    λ _. main_loop-Prompt fuel (count + 1) c x e f3)
                            λ _. main_loop-Prompt fuel 0 c w d (omega (arith, main_round k)))
        λ _. returns armed few
