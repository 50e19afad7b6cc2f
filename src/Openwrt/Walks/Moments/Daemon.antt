-- ===== src/Openwrt/Walks/Moments/Daemon.antt =====
-- Every request of the OpenWrt daemon, main.c, is backed by a message of its run.
use tuya_daemon.Base.{
  Bool, ℕ, zero, suc, ◌≡◌, refl, not, ◌&&◌, ℤ, is_zero, ◌==◌, [], ◌⊎◌, inl, inr, ◌+◌,
}
use tuya_daemon.World.{
  Bytes, CharPtr, Event, History, Message, Env, Sys, pure, skip, sigint, sigterm,
}
use tuya_daemon.World.Steps
use tuya_daemon.World.Steps.{
  Walk, Reach, Reach-trans, final, pure-Walk, unfinished-Walk, tell-Walk, call-Walk, strdup-Walk,
  free-Walk, sigaction-Walk,
}
use tuya_daemon.World.Steps.Invariants.{Adds, Reach-Adds}
use tuya_daemon.Openwrt.Args.{str_to_digit}
use tuya_daemon.Openwrt.Signals.{signal_handler}
use tuya_daemon.Openwrt.Connection.{wait_connected, connect_to_tuya, retry_connect}
use tuya_daemon.Openwrt.Main.{
  main_loop_from, main_loop, serve, run_mqtt, configured, run_daemon, main, valid_level,
  all_options,
}
use tuya_daemon.Openwrt.Walks.Senders.{send_memory_info-Walk}
use tuya_daemon.Openwrt.Walks.Wanted.Asks.{Asks, wanted-Asks}
use tuya_daemon.Openwrt.Walks.Callbacks.{stops}
use tuya_daemon.Openwrt.Walks.Daemon.{connections-Walk, uci_free-Walk}
use tuya_daemon.Openwrt.Walks.Moments.{
  Backed, ordinary, driving, reports, info, Between, HandsOver, Run, of_Walk, bind, if-Run,
  loop-Run, disconnect-Run, quietly, line, lines, drive, drives, copies, frees, asks, reads,
  option-Run,
}

module _ {env : Env} where
  retry-Run :
      (rounds seconds : ℕ) (ret : ℤ) (s : Sys) → Run env s (retry_connect env rounds seconds ret s)
  unfolding retry_connect
  retry-Run zero seconds ret s = quietly
  retry-Run (suc rounds) seconds ret s =
      if-Run (not (is_zero ret) && s.keep_running == 1) _ _
        (bind (line _ tt) λ _ u.
          bind (drive (Event.sleep seconds) tt)
            λ _ v. bind (drives _ _ (λ _. tt)) λ ret' w. retry-Run rounds _ ret' w)
        quietly

  wait-Run : (fuel : ℕ) (s : Sys) → Run env s (wait_connected env fuel s)
  unfolding wait_connected
  wait-Run zero s = of_Walk λ _. unfinished-Walk tt
  wait-Run (suc fuel) s = bind (drives _ _ (λ _. tt)) λ up u.
      if-Run (not up && u.keep_running == 1) _ _
        (bind loop-Run λ ret v. if-Run (not (is_zero ret)) _ _ (lines _ _ _) (wait-Run fuel v))
        quietly

  connect-Run : {s : Sys} (fuel : ℕ) → Run env s (connect_to_tuya env fuel s)
  unfolding connect_to_tuya
  connect-Run fuel = bind (drives _ _ (λ _. tt)) λ first u. bind (retry-Run 10 2 first u) λ ret v.
      if-Run (not (is_zero ret)) _ _ (lines _ _ _) (bind (line _ tt) λ _ w. wait-Run fuel w)

  main_loop-Run : (fuel count c : ℕ) (s : Sys) → Run env s (main_loop_from env fuel count c s)
  unfolding main_loop_from
  main_loop-Run zero count c s = of_Walk λ _. unfinished-Walk tt
  main_loop-Run (suc fuel) count c s =
      if-Run (s.keep_running == 1) _ _
        (bind loop-Run λ ret u. if-Run (not (is_zero ret)) _ _ (lines _ _ _) (
          bind (drive (Event.sleep 10) tt) λ _ v.
            bind (of_Walk λ _. send_memory_info-Walk ordinary reports c info) λ sent w.
              if-Run (not sent) _ _
                (bind (line _ tt) λ _ x.
                  if-Run (count + 1 == 10) _ _ (lines _ _ _) (main_loop-Run fuel (count + 1) c x))
                (main_loop-Run fuel 0 c w)))
        quietly

  serve-Run : {s : Sys} (fuel c : ℕ) → Run env s (serve env fuel c s)
  unfolding serve main_loop
  serve-Run fuel c = bind (connect-Run fuel) λ ret u. if-Run (not (is_zero ret)) _ _ quietly (
      bind (main_loop-Run fuel 0 c u)
        λ good v. bind (if-Run (v.keep_running == 0) _ skip (line _ tt) quietly) λ _ w. quietly)

  run_mqtt-Run :
      {s : Sys} (fuel : ℕ) (id secret : Bytes) → Run env s (run_mqtt env fuel id secret s)
  unfolding run_mqtt
  run_mqtt-Run fuel id secret =
      bind (of_Walk λ _. connections-Walk ordinary (λ _. driving _ tt) id secret) λ r u.
        bind (if-Run (not (is_zero r.0)) (pure r.0) _ quietly (serve-Run fuel r.1))
          λ ret v. bind disconnect-Run λ _ w. bind (drives _ _ (λ _. tt)) λ _ x. quietly

  configured-Run :
      {s : Sys} (fuel : ℕ) (id secret level : Bytes)
      → Run env s (configured env fuel id secret level s)
  unfolding configured
  configured-Run fuel id secret level =
      option-Run (valid_level (str_to_digit level)) _ _ (lines _ _ _)
        λ l. bind (line _ tt) λ _ u. bind (line _ tt) λ _ v. run_mqtt-Run fuel id secret

  run_daemon-Run :
      {s : Sys} (fuel : ℕ) (have : Bool) (a b c d : CharPtr)
      → Run env s (run_daemon env fuel have a b c d s)
  unfolding run_daemon
  run_daemon-Run fuel have a b c d = if-Run (not have) _ _ (lines _ _ _) (
      bind (reads a _) λ id v. bind (reads b _) λ secret w. bind (reads c _) λ product x.
        bind (reads d _) λ level y.
          option-Run (all_options id secret product level) _ _ quietly
            λ o. configured-Run fuel _ _ _)

  main-Run : {s : Sys} (fuel : ℕ) → Run env s (main env fuel s)
  unfolding main
  main-Run fuel =
      bind
        (of_Walk λ _.
          Steps.bind (sigaction-Walk sigint signal_handler (ordinary _ tt) stops)
            λ _ a. sigaction-Walk sigterm signal_handler (ordinary _ tt) stops)
        λ _ b. bind (line _ tt) λ _ c. bind (copies _) λ n0 d. bind (copies _) λ n1 e.
          bind (copies _) λ n2 f. bind (copies _) λ n3 g. bind (asks _ _ (λ _. tt)) λ have h0.
            bind (run_daemon-Run fuel have n0 n1 n2 n3) λ ret h. bind (line _ tt) λ _ i.
              bind (frees n0) λ _ j. bind (frees n1) λ _ k. bind (frees n2) λ _ l.
                bind (frees n3) λ _ m.
                  bind (of_Walk λ _. uci_free-Walk ordinary have)
                    λ _ n. bind (line _ tt) λ _ o. quietly

-- A request to a ubus service is for the memory, or a message asks for it that is handed over at a
-- moment of the run from `first` to `last`.
abbrev pub MayInvoke : Env → History → History → Event → Type 0
MayInvoke env first last (Event.ubus_invoke id method fields ret) =
    ((method ≡ "info") × (fields ≡ []))
    ⊎ ((msg : Message) × (h : History) × Between first last h
        × HandsOver env h msg
        × Asks env msg method fields)
MayInvoke env first last _ = Unit

Backed-MayInvoke :
    (env : Env) (first last : History) (e : Event)
    → Backed env (Between first last) e
    → MayInvoke env first last e
Backed-MayInvoke env first last (Event.ubus_invoke _ _ _ _) (Backed.ordinary _ h) = absurd h
Backed-MayInvoke env first last (Event.ubus_invoke _ _ _ _) (Backed.driving _ h) = absurd h
Backed-MayInvoke env first last (Event.ubus_invoke _ _ _ _) (Backed.info id ret) = inl (refl, refl)
Backed-MayInvoke env first last (Event.ubus_invoke _ _ _ _) (Backed.asked id m fs ret msg given h) =
    inr (msg, given.0, given.1, given.2, wanted-Asks env msg m fs h)
Backed-MayInvoke env first last _ _ = tt

-- In every environment and from every state, whatever the outcome: every request to a ubus service
-- that `main` adds to the history is either the request for the memory, info without fields, or one
-- that a message asks for (`Asks`) which the library hands over in the callbacks of
-- `tuya_mqtt_loop` or `tuya_mqtt_disconnect` at a moment of this run: the history of that moment
-- extends the one from before the run, and the one at its end extends it.
pub main-MayInvoke :
    (env : Env) (fuel : ℕ) (s : Sys)
    → Adds
        (MayInvoke env s.history (final (main env fuel s)).history)
        s.history
        (final (main env fuel s)).history
main-MayInvoke env fuel s =
    Reach-Adds (Backed-MayInvoke env _ _) (λ _. tt) (λ _. tt)
      ((main-Run {env = env} {s = s} fuel).walk _ λ h now. now).reach
