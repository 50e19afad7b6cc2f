-- ===== src/Openwrt/Connection.antt =====
-- openwrt/tuya_daemon/src/connection.c: the callbacks of the MQTT library, and the connection.
pub mod Memory
pub mod Retries
pub mod Lifecycle
pub mod Bounds
use tuya_daemon.Base.{
  ℕ, zero, suc, ◌*◌, ◌%◌, ◌^◌, Bool, true, false, not, ◌&&◌, ◌||◌, Option, none, some, List, [],
  ◌∷◌, String, ℤ, pos, negsuc, is_zero, minus_one, minus_two, ltb, ◌==◌, strcmp_eq, if◌then◌else◌,
}
use tuya_daemon.Thing.{ThingType, action_execute}
use tuya_daemon.World.{
  Bytes, Handler, on_connected_handler, on_disconnect_handler, on_messages_handler, Config, Event,
  Json, Message, Callback, connected, disconnected, message, Env, bad_cast, fault, unfinished,
  null_deref, Cmd, pure, ◌>>=◌, ◌>>◌, skip, read, modify, call, tell, syslog, sleep, malloc,
  free_block, log_err, log_warning, log_info, log_debug,
}
use tuya_daemon.Openwrt.Ubus.{ubus_connect, ubus_free}
use tuya_daemon.Openwrt.SendInfo.{send_memory_info, send_connected_devices_list, control_device_pin}

abbrev pub is_absent {ℓ} : {A : Type ℓ} → Option A → Bool
is_absent none = true
is_absent (some _) = false

-- `(uint32_t)d`: undefined unless the integral part of `d` is in range.
unfoldable pub to_uint32 : Option ℤ → Cmd ℕ
to_uint32 none s = fault bad_cast s
to_uint32 (some (negsuc n)) s = fault bad_cast s
to_uint32 (some (pos n)) s = if ltb n (2 ^ 32) then pure n s else fault bad_cast s

abbrev pub is_action_execute : ThingType → Bool
is_action_execute action_execute = true
is_action_execute _ = false

abbrev pub handler_of : Config → Callback → Handler
handler_of c connected = c.on_connected
handler_of c disconnected = c.on_disconnect
handler_of c (message msg) = c.on_messages

-- What the branch of a device action needs: `dev_name` and `pin_json`, both present.
abbrev pub both_args : Option String → Option Json → Option (String × Json)
both_args none pin = none
both_args (some d) none = none
both_args (some d) (some p) = some (d, p)

abbrev pub mqtt_config : Bytes → Bytes → Config
mqtt_config device_id device_secret = record {
  host = "m1.tuyacn.com";
  port = 8883;
  cacert_pem = true;
  device_id = some device_id;
  device_secret = some device_secret;
  keepalive = 100;
  timeout_ms = 2000;
  on_connected = on_connected_handler;
  on_disconnect = on_disconnect_handler;
  on_messages = on_messages_handler;
}

module _ (env : Env) where
  -- `on_connected` ignores what `send_memory_info` returns.
  unfoldable pub on_connected : ℕ → Cmd (Unit {0})
  on_connected ubus_ctx = do
    syslog env log_info "Connected to Tuya cloud"
    _ ← send_memory_info env ubus_ctx
    skip

  unfoldable pub on_disconnect : ℕ → Cmd (Unit {0})
  on_disconnect ubus_ctx = do
    ubus_free env ubus_ctx
    syslog env log_info "Disconnected from Tuya cloud"

  -- `action_args == NULL || device == NULL || dev_name == NULL || pin_json == NULL || !IsNumber`.
  unfoldable pub action_arguments : Option Json → Option (String × Json)
  action_arguments full_data =
      let action_args = env.cjson_get_object_item full_data "inputParams" in
      let device = env.cjson_get_object_item action_args "device" in
      let dev_name = env.cjson_get_string_value device in
      let pin_json = env.cjson_get_object_item action_args "pin" in
      elim (both_args dev_name pin_json) [
        | none ↦ none
        | some (d, p) ↦
            if is_absent action_args || is_absent device || not (env.cjson_is_number p)
            then none
            else some (d, p)
      ]

  unfoldable pub device_action : ℕ → String → String → Json → Cmd (Unit {0})
  device_action ubus_ctx action_name dev_name pin_json = do
    pin ← to_uint32 (env.valuedouble pin_json)
    if strcmp_eq action_name "turn_on_pin"
        then (do _ ← control_device_pin env ubus_ctx true dev_name pin; skip)
        else if strcmp_eq action_name "turn_off_pin"
        then (do _ ← control_device_pin env ubus_ctx false dev_name pin; skip)
        else syslog env log_warning "Unrecognized action requested: %s"

  -- `action_name`, unless `action == NULL || action_name == NULL`.
  unfoldable pub requested_action : Option Json → Option String
  requested_action full_data =
      let action = env.cjson_get_object_item full_data "actionCode" in
      if is_absent action then none else env.cjson_get_string_value action

  -- The body of `execute_action` between the parse and the label `json_cleanup`.
  unfoldable pub run_action : ℕ → Option Json → Cmd (Unit {0})
  run_action ubus_ctx full_data = elim (requested_action full_data) [
    | none ↦ syslog env log_err "ACTION_EXECUTE does not contain action name"
    | some action_name ↦
        if strcmp_eq action_name "list_devices"
        then (do _ ← send_connected_devices_list env ubus_ctx; skip)
        else elim (action_arguments full_data) [
          | none ↦ syslog env log_err "Action does not have required arguments"
          | some (dev_name, pin_json) ↦ device_action ubus_ctx action_name dev_name pin_json
        ]
  ]

  -- `cJSON_Parse` allocates a tree, which stands here as one heap block, and `cJSON_Delete`
  -- frees it.
  unfoldable pub execute_action : String → ℕ → Cmd (Unit {0})
  execute_action data_string ubus_ctx = do
    tell env Event.json_parse
    elim (env.cjson_parse data_string) [
      | none ↦ do run_action ubus_ctx none; tell env Event.json_delete
      | some json ↦ do
        full_data ← malloc env
        run_action ubus_ctx (some json)
        free_block env full_data
        tell env Event.json_delete
    ]

  unfoldable pub on_messages : ℕ → Message → Cmd (Unit {0})
  on_messages ubus_ctx msg = do
    syslog env log_debug "Got message: id: %s, type: %s, code: %u, data: %s"
    if is_action_execute msg.type
        then execute_action msg.data_string ubus_ctx
        else syslog env log_warning "unrecognized message type received: %s"

  -- The library calls the functions that its configuration names, with the context's `user_data`.
  unfoldable pub run_handler : Handler → Callback → ℕ → Cmd (Unit {0})
  run_handler on_connected_handler _ user_data = on_connected user_data
  run_handler on_disconnect_handler _ user_data = on_disconnect user_data
  run_handler on_messages_handler (message msg) user_data = on_messages user_data msg
  run_handler on_messages_handler connected user_data = fault null_deref
  run_handler on_messages_handler disconnected user_data = fault null_deref

  unfoldable pub run_callback : Option Config → ℕ → Callback → Cmd (Unit {0})
  run_callback none user_data c = skip
  run_callback (some config) user_data c = run_handler (handler_of config c) c user_data

  unfoldable pub run_callbacks : List Callback → Cmd (Unit {0})
  run_callbacks [] = skip
  run_callbacks (c ∷ cs) = do
    config ← read (λ s. s.context.config)
    user_data ← read (λ s. s.context.user_data)
    run_callback config user_data c
    run_callbacks cs

  unfoldable pub tuya_mqtt_loop : Cmd ℤ
  tuya_mqtt_loop = do
    cs ← read (λ s. env.loop_callbacks s.history)
    run_callbacks cs
    call env env.tuya_mqtt_loop Event.mqtt_loop

  unfoldable pub tuya_mqtt_disconnect : Cmd ℤ
  tuya_mqtt_disconnect = do
    cs ← read (λ s. env.disconnect_callbacks s.history)
    run_callbacks cs
    call env env.tuya_mqtt_disconnect Event.mqtt_disconnect

  abbrev pub tuya_mqtt_connect : Cmd ℤ
  tuya_mqtt_connect = call env env.tuya_mqtt_connect Event.mqtt_connect

  -- A successful `tuya_mqtt_init` keeps the configuration; `user_data` is NULL until it is set.
  unfoldable pub tuya_mqtt_init : Config → Cmd ℤ
  tuya_mqtt_init config = do
    ret ← call env env.tuya_mqtt_init Event.mqtt_init
    if is_zero ret
        then modify (λ s. record s { context = record { config = some config; user_data = 0 } })
        else skip
    pure ret

  -- The status and `*ubus_ctx`, 0 where it is NULL or not written.
  unfoldable pub init_connections : Bytes → Bytes → Cmd (ℤ × ℕ)
  init_connections device_id device_secret = do
    ret ← tuya_mqtt_init (mqtt_config device_id device_secret)
    if not (is_zero ret)
        then (do syslog env log_err "Failed to initialize Tuya MQTT"; pure (minus_one, 0))
        else (do
          ubus_ctx ← ubus_connect env
          if ubus_ctx == 0
              then (do syslog env log_err "Failed to connect to ubus"; pure (minus_two, 0))
              else (do
                modify (λ s. record s { context = record (s.context) { user_data = ubus_ctx } })
                pure (pos 0, ubus_ctx)))

  -- The `for` loop, by the rounds that `i < 10` leaves, from its variables `sleep_seconds` and
  -- `ret`. `unsigned int` has 32 bits.
  unfoldable pub retry_connect : ℕ → ℕ → ℤ → Cmd ℤ
  retry_connect zero sleep_seconds ret = pure ret
  retry_connect (suc rounds) sleep_seconds ret = do
    running ← read (λ s. s.keep_running)
    if not (is_zero ret) && running == 1
        then (do
          syslog env log_err "%s(): Failed to connect to Tuya, retrying in %u seconds"
          sleep env sleep_seconds
          ret' ← tuya_mqtt_connect
          retry_connect rounds (sleep_seconds * 2 % 2 ^ 32) ret')
        else pure ret

  -- The `while` loop, on fuel.
  unfoldable pub wait_connected : ℕ → Cmd ℤ
  wait_connected zero = unfinished
  wait_connected (suc fuel) = do
    up ← call env env.tuya_mqtt_connected Event.mqtt_connected
    running ← read (λ s. s.keep_running)
    if not up && running == 1
        then (do
          ret ← tuya_mqtt_loop
          if not (is_zero ret)
              then (do syslog env log_err "Tuya MQTT error"; pure minus_one)
              else wait_connected fuel)
        else pure (pos 0)

  unfoldable pub connect_to_tuya : ℕ → Cmd ℤ
  connect_to_tuya fuel = do
    first ← tuya_mqtt_connect
    ret ← retry_connect 10 2 first
    if not (is_zero ret)
        then (do syslog env log_err "Failed to connect to Tuya"; pure minus_one)
        else (do syslog env log_info "Connection to Tuya cloud initialized"; wait_connected fuel)
