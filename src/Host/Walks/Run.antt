-- ===== src/Host/Walks/Run.antt =====
-- The runs of the PC daemon as steps: tuya_daemon/main.c.
use tuya_daemon.Base.{
  ℕ, zero, suc, ◌+◌, ◌≡◌, ◌≢◌, refl, Bool, true, false, not, ◌&&◌, Option, none, some, List, [],
  ◌∷◌, ℤ, arith, is_zero, ◌==◌, if◌then◌else◌, inl, inr, ◌⊎◌, pos,
}
use tuya_daemon.World.{
  Bytes, Config, Handler, on_connected_handler, on_disconnect_handler, on_messages_handler, sigint,
  sigterm, Event, Callback, connected, disconnected, message, Env, Sys, pure, skip,
}
use tuya_daemon.World.Steps.{
  here, next, configure, Walk, step, pure-Walk, fault-Walk, exited-Walk, unfinished-Walk, if-Walk,
  bind, sigaction-Walk, tell-Walk, call-Walk, final,
}
use tuya_daemon.World.Steps.Invariants.{Adds, Reach-Adds, is_heap}
use tuya_daemon.Host.Args.{Args, argp_ok, argp_err_unknown, parse_opt}
use tuya_daemon.Host.Daemon.{become_daemon}
use tuya_daemon.Host.Connection.{on_connected, on_disconnect}
use tuya_daemon.Host.Main.{
  signal_handler, handler_of, ArgpOutcome, argp_returns, argp_exits, after_argp, ArgpParse, no_args,
  set_up_signal_handler, run_handler, run_callback, run_callbacks, tuya_mqtt_loop,
  tuya_mqtt_disconnect, init_tuya, retry_connect, settle, connect_to_tuya, main_loop_from, cleanup,
  serve, main,
}
use tuya_daemon.Host.Walks.{
  Local, Ordinary, of_Local, told, logged, free_format-Walk, send_current_time-Walk, messages-Walk,
}
use tuya_daemon.Host.Walks.Background.{Daemonising, become_daemon-Walk}

module _ {env : Env} {Allowed : Event → Type 0} {Loops : Type 0}
    (base : (e : Event) → Local e → Allowed e)
    (sent : (text : Bytes) (ret : ℤ) → Allowed (Event.property_report_with_ack text ret)) where
  handler-Walk :
      {s : Sys} (h : Handler) (c : Callback) → Walk env Allowed Loops s (run_handler env h c s)
  unfolding run_handler on_connected on_disconnect
  handler-Walk on_connected_handler c =
      bind (told base _ tt) λ _ u. bind (send_current_time-Walk base sent) λ _ v. pure-Walk
  handler-Walk on_disconnect_handler c = told base _ tt
  handler-Walk on_messages_handler (message m) = messages-Walk base m
  handler-Walk on_messages_handler connected = fault-Walk
  handler-Walk on_messages_handler disconnected = fault-Walk

  callback-Walk :
      {s : Sys} (o : Option Config) (c : Callback)
      → Walk env Allowed Loops s (run_callback env o c s)
  unfolding run_callback
  callback-Walk none c = pure-Walk
  callback-Walk (some config) c = handler-Walk (handler_of config c) c

  pub callbacks-Walk :
      (cs : List Callback) (s : Sys) → Walk env Allowed Loops s (run_callbacks env cs s)
  unfolding run_callbacks
  callbacks-Walk [] s = pure-Walk
  callbacks-Walk (c ∷ cs) s = bind (callback-Walk _ c) λ _ u. callbacks-Walk cs u

module _ {Allowed : Event → Type 0} (base : (e : Event) → Ordinary e → Allowed e) where
  quiet : (e : Event) → Local e → Allowed e
  quiet e h = base e (of_Local e h)

  sent : (text : Bytes) (ret : ℤ) → Allowed (Event.property_report_with_ack text ret)
  sent text ret = base _ tt

module _ {env : Env} {Allowed : Event → Type 0} {Loops : Type 0}
    (base : (e : Event) → Ordinary e → Allowed e) where
  pub loop-Walk : {s : Sys} → Walk env Allowed Loops s (tuya_mqtt_loop env s)
  unfolding tuya_mqtt_loop
  loop-Walk {s} =
      bind (callbacks-Walk (quiet base) (sent base) _ s) λ _ u. call-Walk _ _ (λ _. base _ tt)

  disconnect-Walk : {s : Sys} → Walk env Allowed Loops s (tuya_mqtt_disconnect env s)
  unfolding tuya_mqtt_disconnect
  disconnect-Walk {s} =
      bind (callbacks-Walk (quiet base) (sent base) _ s) λ _ u. call-Walk _ _ (λ _. base _ tt)

  pub init-Walk :
      {s : Sys} (id secret : Option Bytes) → Walk env Allowed Loops s (init_tuya env id secret s)
  unfolding init_tuya
  init-Walk id secret = bind (call-Walk _ _ (λ _. base _ tt)) λ ret u.
      if-Walk (not (is_zero ret)) _ _ (logged (quiet base) _ _ _) (step (next here (configure _)))

  retry-Walk :
      (rounds seconds : ℕ) (ret : ℤ) (s : Sys)
      → Walk env Allowed Loops s (retry_connect env rounds seconds ret s)
  unfolding retry_connect
  retry-Walk zero seconds ret s = pure-Walk
  retry-Walk (suc rounds) seconds ret s =
      if-Walk (not (is_zero ret) && s.keep_running == 1) _ _
        (bind (told (quiet base) _ tt) λ _ u.
          bind (tell-Walk (Event.sleep seconds) (base _ tt))
            λ _ v. bind (call-Walk _ _ (λ _. base _ tt)) λ ret' w. retry-Walk rounds _ ret' w)
        pure-Walk

  settle-Walk : (rounds : ℕ) (s : Sys) → Walk env Allowed Loops s (settle env rounds s)
  unfolding settle
  settle-Walk zero s = pure-Walk
  settle-Walk (suc rounds) s =
      if-Walk (s.keep_running == 1) _ _
        (bind loop-Walk λ ret u.
          if-Walk (not (is_zero ret)) _ _ (logged (quiet base) _ _ _) (settle-Walk rounds u))
        pure-Walk

  pub connect-Walk : {s : Sys} → Walk env Allowed Loops s (connect_to_tuya env s)
  unfolding connect_to_tuya
  connect-Walk = bind (call-Walk _ _ (λ _. base _ tt)) λ first u.
      bind (retry-Walk 10 2 first u) λ ret v.
        if-Walk (not (is_zero ret)) _ _ (logged (quiet base) _ _ _)
          (bind (told (quiet base) _ tt) λ _ w. settle-Walk 5 w)

  pub cleanup-Walk : {s : Sys} (ret : ℤ) → Walk env Allowed Loops s (cleanup env ret s)
  unfolding cleanup
  cleanup-Walk {s} ret =
      bind (if-Walk (s.keep_running == 0) _ skip (told (quiet base) _ tt) pure-Walk) λ _ u.
        bind (told (quiet base) _ tt) λ _ v. bind disconnect-Walk λ _ w.
          bind (call-Walk _ _ (λ _. base _ tt)) λ _ x.
            bind (free_format-Walk (quiet base))
              λ _ y. bind (told (quiet base) _ tt) λ _ z. pure-Walk

  pub main_loop-Walk :
      (fuel count : ℕ) (s : Sys)
      → Loops
      → Walk env Allowed Loops s (main_loop_from env fuel count s)
  unfolding main_loop_from
  main_loop-Walk zero count s loops = unfinished-Walk loops
  main_loop-Walk (suc fuel) count s loops =
      if-Walk (s.keep_running == 1) _ _
        (bind loop-Walk λ ret u. if-Walk (not (is_zero ret)) _ _ (logged (quiet base) _ _ _) (
          bind (tell-Walk (Event.sleep 10) (base _ tt)) λ _ v.
            bind (send_current_time-Walk (quiet base) (sent base)) λ sent w.
              if-Walk (not (is_zero sent)) _ _
                (bind (told (quiet base) _ tt) λ _ x.
                  if-Walk (count + 1 == 10) _ _ pure-Walk (main_loop-Walk fuel (count + 1) x loops))
                (main_loop-Walk fuel 0 w loops)))
        pure-Walk

  pub serve-Walk :
      {s : Sys} (fuel : ℕ) (a : Args) → Loops → Walk env Allowed Loops s (serve env fuel a s)
  unfolding serve
  serve-Walk fuel a loops = bind (init-Walk _ _) λ ready u.
      if-Walk (not (is_zero ready)) _ _ pure-Walk (
        bind connect-Walk λ up v.
          bind (if-Walk (not (is_zero up)) (pure up) _ pure-Walk (main_loop-Walk fuel 0 v loops))
            λ ret w. cleanup-Walk ret)

-- What the command line says about becoming a daemon.
abbrev pub asks_daemon : ArgpOutcome → Bool
asks_daemon (argp_returns status arguments) = arguments.become_daemon
asks_daemon (argp_exits status) = false

abbrev pub asked_daemon : ArgpParse → Bool
asked_daemon argp_parse = asks_daemon (argp_parse parse_opt no_args)

-- Without the option for it, no step of `become_daemon` is taken.
pub data Permitted (daemonising : Bool) : Event → Type 0 where
  ordinary : (e : Event) → Ordinary e → Permitted daemonising e
  daemonised : (e : Event) → daemonising ≡ true → Daemonising e → Permitted daemonising e

local : {b : Bool} (e : Event) → Local e → Permitted b e
local e h = ordinary e (of_Local e h)

pub daemon-Walk :
    {env : Env} {Loops : Type 0} {s : Sys} (b : Bool)
    → Walk env (Permitted b) Loops s ((if b then become_daemon env else pure (pos 0)) s)
daemon-Walk true = become_daemon-Walk local (λ e. daemonised e refl)
daemon-Walk false = pure-Walk

pub stops : (m n : ℕ) → signal_handler m n ≢ 1
stops m n e = ground arith

parsed-Walk :
    {env : Env} {s : Sys} (o : ArgpOutcome) (fuel : ℕ)
    → Walk env (Permitted (asks_daemon o)) Unit s (after_argp env fuel o s)
unfolding after_argp
parsed-Walk (argp_exits n) fuel = exited-Walk
parsed-Walk (argp_returns argp_err_unknown a) fuel = bind (told local _ tt) λ _ u. pure-Walk
parsed-Walk (argp_returns argp_ok a) fuel = bind (daemon-Walk a.become_daemon) λ d u.
    bind (told local _ tt) λ _ v.
      bind (told local _ tt)
        λ _ w. if-Walk (not (is_zero d)) _ _ (logged local _ _ _) (serve-Walk ordinary fuel a tt)

main-Walk :
    {env : Env} {s : Sys} (parse : ArgpParse) (fuel : ℕ)
    → Walk env (Permitted (asked_daemon parse)) Unit s (main env parse fuel s)
unfolding main set_up_signal_handler
main-Walk parse fuel =
    bind
      (bind (sigaction-Walk sigint signal_handler (ordinary _ tt) stops)
        λ _ a. sigaction-Walk sigterm signal_handler (ordinary _ tt) stops)
      λ _ b. parsed-Walk (parse parse_opt no_args) fuel

-- The steps of `become_daemon` are taken only if the command line asks for them, and ubus and UCI
-- are never used.
abbrev pub IsPermitted : Bool → Event → Type 0
IsPermitted daemonising e =
    Ordinary e ⊎ (((daemonising ≡ true) × Daemonising e) ⊎ (is_heap e ≡ true))

Permitted-IsPermitted : (b : Bool) (e : Event) → Permitted b e → IsPermitted b e
Permitted-IsPermitted b e (Permitted.ordinary _ h) = inl h
Permitted-IsPermitted b e (Permitted.daemonised _ asked h) = inr (inl (asked, h))

-- In every environment and from every state, whatever the outcome and the command line: every event
-- that `main` of the PC daemon adds to the history is a call of the log, a signal, a sleep, the
-- MQTT library, JSON, the clock or the heap, or it is a step of `become_daemon` and the command
-- line has asked for it.
pub main-IsPermitted :
    (env : Env) (parse : ArgpParse) (fuel : ℕ) (s : Sys)
    → Adds (IsPermitted (asked_daemon parse)) s.history (final (main env parse fuel s)).history
main-IsPermitted env parse fuel s =
    Reach-Adds (Permitted-IsPermitted (asked_daemon parse)) (λ _. inr (inr refl))
      (λ _. inr (inr refl)) (main-Walk {env = env} parse fuel).reach
