-- ===== src/Host/Walks.antt =====
-- The runs of the PC daemon as steps: tuya_daemon/connection.c.
pub mod Background
pub mod Run
pub mod Stops
pub mod Ordered
pub mod Prompt
pub mod Refused
use tuya_daemon.Base.{
  ℕ, zero, suc, ◌+◌, ◌-◌, ◌≡◌, ◌≢◌, refl, Bool, true, false, not, ◌&&◌, Option, none, some, List,
  [], ◌∷◌, ◌++◌, String, ℤ, arith, is_zero, is_negative, ◌==◌, if◌then◌else◌, leb, ltb, length,
  strcmp_eq, Bool-cases, inl, inr,
}
use tuya_daemon.Thing.{ThingType, property_set, property_report_rsp}
use tuya_daemon.World.{
  Bytes, CharPtr, unset, null, literal, block, Config, Handler, on_connected_handler,
  on_disconnect_handler, on_messages_handler, sigint, sigterm, Event, History, Json, Message,
  Callback, connected, disconnected, message, Env, Sys, Cmd, tell, call, pure, ◌>>◌, ◌>>=◌, syslog,
  skip, log_err, log_info, null_deref, fault,
}
use tuya_daemon.World.Steps.{
  Reach, here, next, configure, Walk, step, pure-Walk, fault-Walk, exited-Walk, unfinished-Walk,
  if-Walk, option-Walk, bind, tell-Walk, call-Walk, malloc-Walk, free_block-Walk, free-Walk,
  deref-Walk, sigaction-Walk, configure-Walk, format-Walk, final,
}
use tuya_daemon.World.Steps.Invariants.{Adds, Reach-Adds}
use tuya_daemon.Host.Args.{Args, argp_ok, argp_err_unknown, parse_opt}
use tuya_daemon.Host.Buffer.{store, store_all, strlen, char_array}
use tuya_daemon.Host.Daemon.{
  Forked, fork_failed, in_child, in_parent, forked, is_minus_one, equals, redirect, leave_session,
  become_daemon,
}
use tuya_daemon.Host.Connection.{
  given_length, time_prefix, set_date_time_format, free_date_time_format, get_time_string,
  finish_report, send_current_time, on_connected, on_disconnect, parse_valuestring, cjson_delete,
  set_property, property_set_message, handle_type, on_messages,
}
use tuya_daemon.Host.Main.{
  signal_handler, handler_of, ArgpParse, no_args, set_up_signal_handler, run_handler, run_callback,
  run_callbacks, tuya_mqtt_loop, tuya_mqtt_disconnect, init_tuya, retry_connect, settle,
  connect_to_tuya, main_loop_from, cleanup, serve, main,
}

-- What the PC daemon does, apart from its reports, the calls that drive the MQTT library, and the
-- steps in which it becomes a daemon.
abbrev pub Local : Event → Type 0
Local (Event.openlog _) = Unit
Local Event.closelog = Unit
Local (Event.syslog _ _) = Unit
Local (Event.sigaction _) = Unit
Local Event.json_parse = Unit
Local Event.json_delete = Unit
Local (Event.time _) = Unit
Local (Event.localtime _) = Unit
Local (Event.strftime _ _) = Unit
Local (Event.perror _) = Unit
Local (Event.puts _) = Unit
Local _ = ⊥

-- What the PC daemon does, apart from the steps in which it becomes a daemon.
abbrev pub Ordinary : Event → Type 0
Ordinary (Event.sleep _) = Unit
Ordinary (Event.mqtt_init _) = Unit
Ordinary (Event.mqtt_connect _) = Unit
Ordinary (Event.mqtt_loop _) = Unit
Ordinary (Event.mqtt_disconnect _) = Unit
Ordinary (Event.mqtt_deinit _) = Unit
Ordinary (Event.property_report_with_ack _ _) = Unit
Ordinary e = Local e

pub of_Local : (e : Event) → Local e → Ordinary e
of_Local (Event.sleep _) h = tt
of_Local (Event.mqtt_init _) h = tt
of_Local (Event.mqtt_connect _) h = tt
of_Local (Event.mqtt_loop _) h = tt
of_Local (Event.mqtt_disconnect _) h = tt
of_Local (Event.mqtt_deinit _) h = tt
of_Local (Event.property_report_with_ack _ _) h = tt
of_Local _ h = h

pub own : (e : Event) → Local e → Local e
own e h = h

module _ {env : Env} {Allowed : Event → Type 0} {Loops : Type 0}
    (base : (e : Event) → Local e → Allowed e) where
  pub told : {s : Sys} (e : Event) → Local e → Walk env Allowed Loops s (tell env e s)
  told e silent = tell-Walk e (base e silent)

  pub called :
      {A : Type 0} {s : Sys} (answer : History → A) (event : A → Event)
      → ((a : A) → Local (event a))
      → Walk env Allowed Loops s (call env answer event s)
  called answer event silent = call-Walk answer event (λ a. base _ (silent a))

  -- A line of the log, and a value.
  pub logged :
      {A : Type 0} {s : Sys} (p : ℕ) (t : String) (a : A)
      → Walk env Allowed Loops s ((syslog env p t >> pure a) s)
  logged p t a = bind (told (Event.syslog p t) tt) λ _ _. pure-Walk

  pub store-Walk : {s : Sys} (buf : Bytes) (i v : ℕ) → Walk env Allowed Loops s (store buf i v s)
  unfolding store
  store-Walk buf i v = elim (Bool-cases (ltb i (length buf))) [
    | inl e ↦ rw e pure-Walk
    | inr e ↦ rw e fault-Walk
  ]

  store_all-Walk :
      {s : Sys} (buf : Bytes) (i : ℕ) (vs : Bytes) → Walk env Allowed Loops s (store_all buf i vs s)
  unfolding store_all
  store_all-Walk buf i vs = elim (Bool-cases (leb (i + length vs) (length buf))) [
    | inl e ↦ rw e pure-Walk
    | inr e ↦ rw e fault-Walk
  ]

  set_format-Walk :
      {s : Sys} (p : CharPtr) → Walk env Allowed Loops s (set_date_time_format env p s)
  unfolding set_date_time_format
  set_format-Walk {s} p =
      bind (if-Walk s.date_time_format_should_free _ skip (free-Walk s.date_time_format) pure-Walk)
        λ _ u. format-Walk true p

  pub free_format-Walk : {s : Sys} → Walk env Allowed Loops s (free_date_time_format env s)
  unfolding free_date_time_format
  free_format-Walk {s} =
      if-Walk s.date_time_format_should_free _ skip (free-Walk s.date_time_format) pure-Walk

  pub time_string-Walk :
      {s : Sys} (buf : Bytes) (offset size : ℕ) (format : CharPtr)
      → Walk env Allowed Loops s (get_time_string env buf offset size format s)
  unfolding get_time_string
  time_string-Walk buf offset size format = bind (called _ _ (λ _. tt)) λ known u.
      if-Walk (not known) _ _ (logged _ _ _) (
        bind (called _ _ (λ _. tt)) λ local v. if-Walk (not local) _ _ (logged _ _ _) (
          bind (deref-Walk format) λ text w. bind (called _ _ (λ _. tt)) λ written x.
            if-Walk (length written == 0) _ _ (logged _ _ _)
              (bind (store_all-Walk buf offset _) λ buf' y. pure-Walk)))

  valuestring-Walk :
      {s : Sys} (o : Option Json) → Walk env Allowed Loops s (parse_valuestring env o s)
  unfolding parse_valuestring
  valuestring-Walk none = pure-Walk
  valuestring-Walk (some j) =
      option-Walk (env.valuestring j) _ _ pure-Walk λ t. bind malloc-Walk λ a u. pure-Walk

  delete-Walk : {s : Sys} (a : ℕ) (p : CharPtr) → Walk env Allowed Loops s (cjson_delete env a p s)
  unfolding cjson_delete
  delete-Walk a p = bind (free-Walk p) λ _ u. bind (free_block-Walk a) λ _ v. told _ tt

  adopt-Walk :
      {s : Sys} (p : CharPtr)
      → Walk env Allowed Loops s (
          (do
            set_date_time_format env p
            syslog env log_info "Setting date time format to '%s'"
            pure null)
            s)
  adopt-Walk p = bind (set_format-Walk p) λ _ u. bind (told _ tt) λ _ v. pure-Walk

  known-Walk :
      {s : Sys} (j : Json) (p : CharPtr) (m : Cmd CharPtr)
      → Walk env Allowed Loops s (m s)
      → Walk env Allowed Loops s (
          (elim (env.json_name j) as (λ _. Cmd CharPtr) [
            | none ↦ fault null_deref
            | some name ↦
                if not (strcmp_eq name "date_time_format")
                then (do
                  syslog env log_err "PROPERTY_SET wants to set unknown property with name: %s"
                  pure p)
                else m
          ])
            s)
  known-Walk j p m walk =
      option-Walk (env.json_name j) _ _ fault-Walk
        λ name. if-Walk (not (strcmp_eq name "date_time_format")) _ _ (logged _ _ _) walk

  set_property-Walk :
      {s : Sys} (o : Option Json) (p : CharPtr) → Walk env Allowed Loops s (set_property env o p s)
  unfolding set_property
  set_property-Walk none p = logged _ _ _
  set_property-Walk (some j) unset = known-Walk j _ _ (adopt-Walk unset)
  set_property-Walk (some j) null = known-Walk j _ _ (logged _ _ _)
  set_property-Walk (some j) (literal t) = known-Walk j _ _ (adopt-Walk (literal t))
  set_property-Walk (some j) (block a t) = known-Walk j _ _ (adopt-Walk (block a t))

  property_set-Walk :
      {s : Sys} (t : String) → Walk env Allowed Loops s (property_set_message env t s)
  unfolding property_set_message
  property_set-Walk t = bind (told _ tt) λ _ u. option-Walk (env.cjson_parse t) _ _ fault-Walk λ j.
      bind malloc-Walk λ a v.
        bind (valuestring-Walk _) λ p w. bind (set_property-Walk _ p) λ rest x. delete-Walk a rest

  type-Walk :
      {s : Sys} (type : ThingType) (t : String)
      → Walk env Allowed Loops s (handle_type env type t s)
  unfolding handle_type
  type-Walk property_set t = bind (told _ tt) λ _ u. property_set-Walk t
  type-Walk property_report_rsp t = told _ tt
  type-Walk _ t = told _ tt

  pub messages-Walk : {s : Sys} (m : Message) → Walk env Allowed Loops s (on_messages env m s)
  unfolding on_messages
  messages-Walk m = bind (told _ tt) λ _ u. type-Walk m.type m.data_string

module _ {env : Env} {Allowed : Event → Type 0} {Loops : Type 0}
    (base : (e : Event) → Local e → Allowed e)
    (sent : (text : Bytes) (ret : ℤ) → Allowed (Event.property_report_with_ack text ret)) where
  finish_report-Walk :
      {s : Sys} (buf : Bytes) (used n : ℕ)
      → Walk env Allowed Loops s (finish_report env buf used n s)
  unfolding finish_report
  finish_report-Walk buf used n =
      if-Walk (leb (length buf) (used + n + 2)) _ _ (logged base _ _ _) (
        bind (store-Walk base buf _ _) λ buf1 u. bind (store-Walk base buf1 _ _) λ buf2 v.
          bind (store-Walk base buf2 _ _) λ buf3 w.
            bind (call-Walk _ _ (λ ret. sent _ ret))
              λ ret x. if-Walk (is_negative ret) _ _ (logged base _ _ _) pure-Walk)

  pub send_current_time-Walk : {s : Sys} → Walk env Allowed Loops s (send_current_time env s)
  unfolding send_current_time
  send_current_time-Walk {s} =
      bind (time_string-Walk base _ _ _ s.date_time_format)
        λ r u. option-Walk (given_length r.0) _ _ pure-Walk λ n. finish_report-Walk r.1 _ n
