-- ===== src/Host/Walks/Prompt.antt =====
-- tuya_daemon/main.c: how soon the PC daemon ends after a signal, for the loops.
pub mod Daemon
use tuya_daemon.Base.{
  ℕ, zero, suc, ◌+◌, ◌≤◌, ◌≡◌, refl, not, ◌&&◌, arith, is_zero, ◌==◌, ℤ, if◌then◌else◌, String,
}
use tuya_daemon.World.{Signal, Event, Env, Sys, Cmd, pure, ◌>>◌, syslog, log_err, log_info}
use tuya_daemon.World.Steps.Invariants.{Armed, Arrives}
use tuya_daemon.World.Steps.Prompt.{
  Kind, sleeping, connecting, looping, hit, same_kind, late, running-late, Prompt, returns, loops,
  if-Prompt, quiet-Prompt, tell-Prompt, call-Prompt, bind,
}
use tuya_daemon.World.Steps.Rounds.{
  retry_round, main_round, still_running, Other, same-Other, log-Prompt,
}
use tuya_daemon.Host.Main.{tuya_mqtt_loop, retry_connect, settle, connect_to_tuya, main_loop_from}
use tuya_daemon.Host.Walks.{Local, own, told, send_current_time-Walk}
use tuya_daemon.Host.Walks.Run.{callbacks-Walk}

pub uncounted : (k : Kind) (e : Event) → Local e → hit k e ≡ 0
uncounted k (Event.mqtt_connect r) h = absurd h
uncounted k (Event.mqtt_loop r) h = absurd h
uncounted k (Event.sleep n) h = absurd h
uncounted k _ h = refl

module _ {env : Env} {g : Signal} {moment : ℕ} (signal : Arrives env g moment) (k : Kind) where
  loop-Prompt :
      (n : ℕ) (s : Sys)
      → Armed g moment s
      → late moment k s.history ≤ n
      → Prompt g moment k (n + same_kind k looping) (tuya_mqtt_loop env s)
  unfolding tuya_mqtt_loop
  loop-Prompt n s armed few =
      bind (omega arith)
        (quiet-Prompt signal {Allowed = Other k} {Loops = ⊥} n (same-Other k)
          (callbacks-Walk (uncounted k) (λ _ _. refl) _ s) armed few)
        λ _ u a f. call-Prompt signal n (same_kind k looping) _ _ (λ _. refl) a f

  retry-Prompt :
      (rounds seconds : ℕ) (ret : ℤ) (s : Sys)
      → Armed g moment s
      → late moment k s.history ≤ 1
      → Prompt g moment k 1 (retry_connect env rounds seconds ret s)
  unfolding retry_connect
  retry-Prompt zero seconds ret s armed few = returns armed few
  retry-Prompt (suc rounds) seconds ret s armed few =
      if-Prompt (not (is_zero ret) && s.keep_running == 1) _ _
        (λ go.
          bind (omega arith)
            (quiet-Prompt signal 0 (uncounted k) (told {Loops = ⊥} own _ tt) armed (
              omega
                (arith, running-late g moment k s armed (still_running (not (is_zero ret)) _ go))))
            λ _ u a f.
              bind (omega (arith, retry_round k)) (tell-Prompt signal 0 (Event.sleep seconds) a f)
                λ _ v b f1.
                  bind (omega (arith, retry_round k))
                    (call-Prompt signal _ (same_kind k connecting) _ _ (λ _. refl) b f1)
                    λ ret' w c f2. retry-Prompt rounds _ ret' w c (omega (arith, retry_round k)))
        λ _. returns armed few

  settle-Prompt :
      (rounds : ℕ) (s : Sys)
      → Armed g moment s
      → late moment k s.history ≤ 1
      → Prompt g moment k 1 (settle env rounds s)
  unfolding settle
  settle-Prompt zero s armed few = returns armed few
  settle-Prompt (suc rounds) s armed few =
      if-Prompt (s.keep_running == 1) _ _
        (λ go.
          bind (omega (arith, main_round k))
            (loop-Prompt 0 s armed (omega (arith, running-late g moment k s armed go)))
            λ ret u a f.
              if-Prompt (not (is_zero ret)) _ _
                (λ _. log-Prompt signal k 1 _ _ _ u a (omega (arith, main_round k)))
                λ _. settle-Prompt rounds u a (omega (arith, main_round k)))
        λ _. returns armed few

  pub connect-Prompt :
      (s : Sys)
      → Armed g moment s
      → late moment k s.history ≤ 0
      → Prompt g moment k 1 (connect_to_tuya env s)
  unfolding connect_to_tuya
  connect-Prompt s armed few =
      bind (omega (arith, retry_round k))
        (call-Prompt signal 0 (same_kind k connecting) _ _ (λ _. refl) armed few)
        λ first u a f.
          bind (omega arith) (retry-Prompt 10 2 first u a (omega (arith, retry_round k)))
            λ ret v b f1.
              if-Prompt (not (is_zero ret)) _ _ (λ _. log-Prompt signal k 1 _ _ _ v b f1)
                λ _.
                  bind (omega arith)
                    (quiet-Prompt signal 1 (uncounted k) (told {Loops = ⊥} own _ tt) b f1)
                    λ _ w c f2. settle-Prompt 5 w c f2

  pub main_loop-Prompt :
      (fuel count : ℕ) (s : Sys)
      → Armed g moment s
      → late moment k s.history ≤ 1
      → Prompt g moment k 1 (main_loop_from env fuel count s)
  unfolding main_loop_from
  main_loop-Prompt zero count s armed few = loops few
  main_loop-Prompt (suc fuel) count s armed few =
      if-Prompt (s.keep_running == 1) _ _
        (λ go.
          bind (omega (arith, main_round k))
            (loop-Prompt 0 s armed (omega (arith, running-late g moment k s armed go)))
            λ ret u a f.
              if-Prompt (not (is_zero ret)) _ _
                (λ _. log-Prompt signal k 1 _ _ _ u a (omega (arith, main_round k)))
                λ _.
                  bind (omega (arith, main_round k)) (tell-Prompt signal _ (Event.sleep 10) a f)
                    λ _ v b f1.
                      bind (omega (arith, main_round k))
                        (quiet-Prompt signal {Allowed = Other k} {Loops = ⊥} _ (same-Other k)
                          (send_current_time-Walk (uncounted k) (λ _ _. refl)) b f1)
                        λ sent w d f2.
                          if-Prompt (not (is_zero sent)) _ _
                            (λ _.
                              bind (omega arith)
                                (quiet-Prompt signal 1 (uncounted k) (told {Loops = ⊥} own _ tt) d
                                  (omega (arith, main_round k)))
                                λ _ x e f3.
                                  if-Prompt (count + 1 == 10) _ _ (λ _. returns e f3)
                                    λ _. main_loop-Prompt fuel (count + 1) x e f3)
                            λ _. main_loop-Prompt fuel 0 w d (omega (arith, main_round k)))
        λ _. returns armed few
