-- ===== src/Openwrt/Walks.antt =====
-- The runs of the OpenWrt daemon as steps: args.c, and the parts of send_info.c.
pub mod Senders
pub mod Callbacks
pub mod Daemon
pub mod Wanted
pub mod Moments
pub mod Stops
pub mod Ordered
pub mod Prompt
pub mod Refused
pub mod Reports
use tuya_daemon.Base.{
  ℕ, ◌≡◌, refl, Bool, true, false, Option, none, some, List, [], ◌∷◌, String, ℤ, if◌then◌else◌,
  is_zero, is_negative, not,
}
use tuya_daemon.World.{
  CharPtr, Field, text, number, UciStatus, uci_ok, uci_err_notfound, uci_err_other, UciPtr, Event,
  Blob, Env, History, Cmd, Sys, tell, call, pure, ◌>>◌, ◌>>=◌, syslog, log_err,
}
use tuya_daemon.World.Steps.{
  Walk, pure-Walk, fault-Walk, if-Walk, option-Walk, bind, tell-Walk, call-Walk, malloc-Walk,
  free_block-Walk, free-Walk, deref-Walk, touch-Walk, lend-Walk,
}
use tuya_daemon.Openwrt.Args.{uci_check_success, uci_get_option}
use tuya_daemon.Openwrt.Ubus.{
  UbusResponse, DataCallback, handle_replies, ubus_invoke, blobmsg_format_json, blobmsg_add,
  ubus_connect, ubus_free,
}
use tuya_daemon.Openwrt.SendInfo.{
  info_policy, memory_data, lookup_ubus_service, report_property_to_tuya, ubus_received_mem_data_cb,
  ubus_received_dev_list_cb, ubus_dev_command_resp_cb, report_answer, read_success,
  send_memory_info, send_connected_devices_list, control_device_pin, failed, succeeded,
  memory_incomplete, answer_incomplete,
}

-- What the OpenWrt daemon does apart from its requests to ubus services, its reports, and the calls
-- that drive the MQTT library.
abbrev pub Ordinary : Event → Type 0
Ordinary (Event.openlog _) = Unit
Ordinary Event.closelog = Unit
Ordinary (Event.setlogmask _) = Unit
Ordinary (Event.syslog _ _) = Unit
Ordinary (Event.sigaction _) = Unit
Ordinary (Event.malloc _) = Unit
Ordinary (Event.free _) = Unit
Ordinary Event.json_parse = Unit
Ordinary Event.json_delete = Unit
Ordinary (Event.uci_alloc_context _) = Unit
Ordinary Event.uci_free_context = Unit
Ordinary (Event.uci_lookup_ptr _ _) = Unit
Ordinary (Event.ubus_connect _) = Unit
Ordinary (Event.ubus_free _) = Unit
Ordinary (Event.ubus_lookup_id _ _) = Unit
Ordinary (Event.blobmsg_add _ _) = Unit
Ordinary _ = ⊥

pub own : (e : Event) → Ordinary e → Ordinary e
own e h = h

-- A callback for the answers of a service, at each of them.
abbrev WalksOn : Env → (Event → Type 0) → Type 0 → DataCallback → Type 0
WalksOn env Allowed Loops cb =
    (b : Blob) (r : UbusResponse) (s : Sys) → Walk env Allowed Loops s (cb b r s)

module _ {env : Env} {Allowed : Event → Type 0} {Loops : Type 0}
    (base : (e : Event) → Ordinary e → Allowed e) where
  pub told : {s : Sys} (e : Event) → Ordinary e → Walk env Allowed Loops s (tell env e s)
  told e ordinary = tell-Walk e (base e ordinary)

  pub called :
      {A : Type 0} {s : Sys} (answer : History → A) (event : A → Event)
      → ((a : A) → Ordinary (event a))
      → Walk env Allowed Loops s (call env answer event s)
  called answer event ordinary = call-Walk answer event (λ a. base _ (ordinary a))

  -- A line of the log, and a value.
  pub logged :
      {A : Type 0} {s : Sys} (p : ℕ) (t : String) (a : A)
      → Walk env Allowed Loops s ((syslog env p t >> pure a) s)
  logged p t a = bind (told (Event.syslog p t) tt) λ _ _. pure-Walk

  check-Walk :
      {s : Sys} (status : UciStatus) (p : UciPtr) (name : String)
      → Walk env Allowed Loops s (uci_check_success env status p name s)
  unfolding uci_check_success
  check-Walk uci_err_notfound p name =
      bind malloc-Walk
        λ error u. bind (told _ tt) λ _ v. bind (free_block-Walk error) λ _ w. pure-Walk
  check-Walk uci_ok p name = if-Walk (not p.complete) _ _ (logged _ _ _) pure-Walk
  check-Walk uci_err_other p name = if-Walk (not p.complete) _ _ (logged _ _ _) pure-Walk

  pub uci_get_option-Walk :
      {s : Sys} (option : CharPtr) (name : String)
      → Walk env Allowed Loops s (uci_get_option env option name s)
  unfolding uci_get_option
  uci_get_option-Walk option name = bind (deref-Walk option) λ text u.
      bind (called _ _ (λ _. tt)) λ ret v. bind (check-Walk ret _ name) λ found w.
        if-Walk (not found) _ _ pure-Walk
          (if-Walk (not (env.uci_ptr u.history text).is_string) _ _ (logged _ _ _) pure-Walk)

  pub lookup-Walk :
      {s : Sys} (c : ℕ) (n : String) → Walk env Allowed Loops s (lookup_ubus_service env c n s)
  unfolding lookup_ubus_service
  lookup-Walk c n = bind (touch-Walk c) λ _ u.
      bind (called _ _ (λ _. tt)) λ ret v. if-Walk (not (is_zero ret)) _ _ (logged _ _ _) pure-Walk

  pub read_success-Walk :
      {s : Sys} (r : UbusResponse) → Walk env Allowed Loops s (read_success env r s)
  unfolding read_success
  read_success-Walk r = option-Walk r.request_successful _ _ fault-Walk λ b. pure-Walk

  format_json-Walk : {s : Sys} (b : Blob) → Walk env Allowed Loops s (blobmsg_format_json env b s)
  unfolding blobmsg_format_json
  format_json-Walk b =
      option-Walk (env.blobmsg_format_json b) _ _ pure-Walk λ t. bind malloc-Walk λ a u. pure-Walk

  pub add-Walk : {s : Sys} (f : Field) → Walk env Allowed Loops s (blobmsg_add env f s)
  unfolding blobmsg_add
  add-Walk f = called _ _ (λ _. tt)

  pub ubus_connect-Walk : {s : Sys} → Walk env Allowed Loops s (ubus_connect env s)
  unfolding ubus_connect
  ubus_connect-Walk {s} =
      if-Walk (env.ubus_connect s.history) _ _
        (bind malloc-Walk λ a u. bind (told (Event.ubus_connect a) tt) λ _ _. pure-Walk)
        (bind (told (Event.ubus_connect 0) tt) λ _ _. pure-Walk)

  pub ubus_free-Walk : {s : Sys} (c : ℕ) → Walk env Allowed Loops s (ubus_free env c s)
  unfolding ubus_free
  ubus_free-Walk c = bind (touch-Walk c) λ _ u. bind (free_block-Walk c) λ _ v. told _ tt

  accept-Walk :
      {s : Sys} (b : Blob)
      → Walk env Allowed Loops s ((blobmsg_format_json env b >>= λ json. pure (succeeded json)) s)
  accept-Walk b = bind (format_json-Walk b) λ json u. pure-Walk

  pub mem_data-Walk : WalksOn env Allowed Loops (ubus_received_mem_data_cb env)
  unfolding ubus_received_mem_data_cb
  mem_data-Walk b r s =
      if-Walk (not (is_zero (env.blobmsg_parse info_policy (env.blob_data b)))) _ _ (logged _ _ _) (
        option-Walk (env.blobmsg_table info_policy (env.blob_data b) memory_data) _ _ (logged _ _ _)
          λ attr. if-Walk (memory_incomplete env attr) _ _ (logged _ _ _) (accept-Walk attr))

  pub dev_list-Walk : WalksOn env Allowed Loops (ubus_received_dev_list_cb env)
  unfolding ubus_received_dev_list_cb
  dev_list-Walk b r s = if-Walk (answer_incomplete env _ _ _ b) _ _ (logged _ _ _) (accept-Walk b)

  pub dev_command-Walk : WalksOn env Allowed Loops (ubus_dev_command_resp_cb env)
  unfolding ubus_dev_command_resp_cb
  dev_command-Walk b r s =
      if-Walk (answer_incomplete env _ _ _ b) _ _ (logged _ _ _) (accept-Walk b)

  replies-Walk :
      (cb : DataCallback)
      → WalksOn env Allowed Loops cb
      → (msgs : List Blob) (r : UbusResponse) (s : Sys)
      → Walk env Allowed Loops s (handle_replies cb msgs r s)
  unfolding handle_replies
  replies-Walk cb each [] r s = pure-Walk
  replies-Walk cb each (m ∷ ms) r s = bind (each m r s) λ r' u. replies-Walk cb each ms r' u

  pub invoke-Walk :
      {s : Sys} (c id : ℕ) (method : String) (fields : List Field) (cb : DataCallback)
      (r : UbusResponse)
      → WalksOn env Allowed Loops cb
      → ((ret : ℤ) → Allowed (Event.ubus_invoke id method fields ret))
      → Walk env Allowed Loops s (ubus_invoke env c id method fields cb r s)
  unfolding ubus_invoke
  invoke-Walk c id method fields cb r each allowed = bind (touch-Walk c) λ _ u.
      bind (replies-Walk cb each _ r u) λ r' v. bind (tell-Walk _ (allowed _)) λ _ _. pure-Walk

  -- The end of a sender: the status, the flag, the report.
  pub settle-Walk :
      {s : Sys} (ret : ℤ) (r : UbusResponse) (t : String) (rest : Cmd Bool)
      → ((u : Sys) → Walk env Allowed Loops u (rest u))
      → Walk env Allowed Loops s (
          (if not (is_zero ret)
              then (syslog env log_err t >> pure false)
              else (read_success env r >>= λ good. if not good then pure false else rest))
            s)
  settle-Walk ret r t rest walked =
      if-Walk (not (is_zero ret)) _ _ (logged _ _ _)
        (bind (read_success-Walk r) λ good u. if-Walk (not good) _ _ pure-Walk (walked u))
