-- ===== src/Host/Main.antt =====
-- tuya_daemon/main.c: the daemon's life from the command line to the clean-up.
pub mod Serving
pub mod Clean
pub mod Connect
pub mod Loop
pub mod Whole
pub mod Lives
use tuya_daemon.Base.{
  ℕ, zero, suc, ◌+◌, ◌*◌, ◌%◌, ◌^◌, true, false, not, ◌&&◌, Option, none, some, List, [], ◌∷◌, ℤ,
  pos, is_zero, ◌==◌, if◌then◌else◌,
}
use tuya_daemon.World.{
  Bytes, SignalHandler, sigint, sigterm, Handler, on_connected_handler, on_disconnect_handler,
  on_messages_handler, Config, Event, Callback, connected, disconnected, message, Env, null_deref,
  fault, exited, unfinished, Cmd, pure, ◌>>=◌, ◌>>◌, skip, when, read, modify, call, tell, syslog,
  sleep, sigaction, log_err, log_info,
}
use tuya_daemon.Host.Args.{Args, Parsed, Key, argp_ok, argp_err_unknown, ArgpError, parse_opt}
use tuya_daemon.Host.Daemon.{become_daemon}
use tuya_daemon.Host.Connection.{
  on_connected, on_disconnect, on_messages, send_current_time, free_date_time_format,
}

abbrev pub exit_success : ℤ
exit_success = pos 0

abbrev pub exit_failure : ℤ
exit_failure = pos 1

abbrev pub signal_handler : SignalHandler
signal_handler signum keep_running = 0

abbrev pub handler_of : Config → Callback → Handler
handler_of c connected = c.on_connected
handler_of c disconnected = c.on_disconnect
handler_of c (message msg) = c.on_messages

-- What becomes of a call of `argp_parse` with the flags 0: it returns a status with the arguments
-- that its parser has filled, or it ends the process with a status of its own, as it does for
-- --help, --usage, --version and an option that it does not know.
pub data ArgpOutcome : Type 0 where
  argp_returns : ArgpError → Args → ArgpOutcome
  argp_exits : ℕ → ArgpOutcome

-- `argp_parse`, given its parser and the arguments to fill. The command line is part of it.
abbrev pub ArgpParse : Type 0
ArgpParse = (Key → Option Bytes → Args → Parsed) → Args → ArgpOutcome

abbrev pub no_args : Args
no_args = record {
  device_id = none;
  device_secret = none;
  product_id = none;
  become_daemon = false;
}

abbrev pub mqtt_config : Option Bytes → Option Bytes → Config
mqtt_config device_id device_secret = record {
  host = "m1.tuyacn.com";
  port = 8883;
  cacert_pem = true;
  device_id = device_id;
  device_secret = device_secret;
  keepalive = 100;
  timeout_ms = 2000;
  on_connected = on_connected_handler;
  on_disconnect = on_disconnect_handler;
  on_messages = on_messages_handler;
}

module _ (env : Env) where
  unfoldable pub set_up_signal_handler : Cmd (Unit {0})
  set_up_signal_handler = do
    sigaction env sigint signal_handler
    sigaction env sigterm signal_handler

  unfoldable pub run_handler : Handler → Callback → Cmd (Unit {0})
  run_handler on_connected_handler _ = on_connected env
  run_handler on_disconnect_handler _ = on_disconnect env
  run_handler on_messages_handler (message msg) = on_messages env msg
  run_handler on_messages_handler connected = fault null_deref
  run_handler on_messages_handler disconnected = fault null_deref

  unfoldable pub run_callback : Option Config → Callback → Cmd (Unit {0})
  run_callback none c = skip
  run_callback (some config) c = run_handler (handler_of config c) c

  unfoldable pub run_callbacks : List Callback → Cmd (Unit {0})
  run_callbacks [] = skip
  run_callbacks (c ∷ cs) = do
    config ← read (λ s. s.context.config)
    run_callback config c
    run_callbacks cs

  unfoldable pub tuya_mqtt_loop : Cmd ℤ
  tuya_mqtt_loop = do
    cs ← read (λ s. env.loop_callbacks s.history)
    run_callbacks cs
    call env env.tuya_mqtt_loop Event.mqtt_loop

  unfoldable pub tuya_mqtt_disconnect : Cmd ℤ
  tuya_mqtt_disconnect = do
    cs ← read (λ s. env.disconnect_callbacks s.history)
    run_callbacks cs
    call env env.tuya_mqtt_disconnect Event.mqtt_disconnect

  unfoldable pub init_tuya : Option Bytes → Option Bytes → Cmd ℤ
  init_tuya device_id device_secret = do
    ret ← call env env.tuya_mqtt_init Event.mqtt_init
    if not (is_zero ret)
        then (do syslog env log_err "Failed to initialize Tuya MQTT, exiting"; pure exit_failure)
        else (do
          modify (λ s. record s {
            context = record { config = some (mqtt_config device_id device_secret); user_data = 0 };
          })
          pure exit_success)

  -- The first `for` loop, by the rounds that `i < 10` leaves.
  unfoldable pub retry_connect : ℕ → ℕ → ℤ → Cmd ℤ
  retry_connect zero sleep_seconds ret = pure ret
  retry_connect (suc rounds) sleep_seconds ret = do
    running ← read (λ s. s.keep_running)
    if not (is_zero ret) && running == 1
        then (do
          syslog env log_err "Failed to connect to Tuya, retrying in %d seconds"
          sleep env sleep_seconds
          ret' ← call env env.tuya_mqtt_connect Event.mqtt_connect
          retry_connect rounds (sleep_seconds * 2 % 2 ^ 32) ret')
        else pure ret

  -- The second `for` loop, by the rounds that `i < 5` leaves.
  unfoldable pub settle : ℕ → Cmd ℤ
  settle zero = pure exit_success
  settle (suc rounds) = do
    running ← read (λ s. s.keep_running)
    if running == 1
        then (do
          ret ← tuya_mqtt_loop
          if not (is_zero ret)
              then (do syslog env log_err "Tuya MQTT error"; pure exit_failure)
              else settle rounds)
        else pure exit_success

  unfoldable pub connect_to_tuya : Cmd ℤ
  connect_to_tuya = do
    first ← call env env.tuya_mqtt_connect Event.mqtt_connect
    ret ← retry_connect 10 2 first
    if not (is_zero ret)
        then (do syslog env log_err "Failed to connect to Tuya cloud, exiting"; pure exit_failure)
        else (do syslog env log_info "Connection to Tuya cloud initialized"; settle 5)

  -- The main loop on fuel, from its variable `send_fail_count`. It returns `ret_val`.
  unfoldable pub main_loop_from : ℕ → ℕ → Cmd ℤ
  main_loop_from zero send_fail_count = unfinished
  main_loop_from (suc fuel) send_fail_count = do
    running ← read (λ s. s.keep_running)
    if running == 1
        then (do
          loop_ret ← tuya_mqtt_loop
          if not (is_zero loop_ret)
              then (do syslog env log_err "Tuya MQTT error"; pure exit_failure)
              else (do
                sleep env 10
                ret ← send_current_time env
                if not (is_zero ret)
                    then (do
                      syslog env log_err "Error sending current time, retrying in 10 seconds"
                      if send_fail_count + 1 == 10
                          then pure exit_failure
                          else main_loop_from fuel (send_fail_count + 1))
                    else main_loop_from fuel 0))
        else pure exit_success

  -- The label `cleanup`.
  unfoldable pub cleanup : ℤ → Cmd ℤ
  cleanup ret_val = do
    running ← read (λ s. s.keep_running)
    when (running == 0) (syslog env log_info "Got signal to exit")
    syslog env log_info "Cleaning up resources and exiting"
    _ ← tuya_mqtt_disconnect
    _ ← call env env.tuya_mqtt_deinit Event.mqtt_deinit
    free_date_time_format env
    tell env Event.closelog
    pure ret_val

  -- `main` from `init_tuya` on.
  unfoldable pub serve : ℕ → Args → Cmd ℤ
  serve fuel arguments = do
    ready ← init_tuya arguments.device_id arguments.device_secret
    if not (is_zero ready) then pure exit_failure else (do
      up ← connect_to_tuya
      ret_val ← (if not (is_zero up) then pure up else main_loop_from fuel 0)
      cleanup ret_val)

  -- `main` from the return of `argp_parse` on.
  unfoldable pub after_argp : ℕ → ArgpOutcome → Cmd ℤ
  after_argp fuel (argp_exits status) = exited status
  after_argp fuel (argp_returns argp_err_unknown arguments) = do
    tell env (Event.puts "Argument parsing failure")
    pure exit_failure
  after_argp fuel (argp_returns argp_ok arguments) = do
    daemon ← (if arguments.become_daemon then become_daemon env else pure (pos 0))
    tell env (Event.openlog "tuya_daemon")
    syslog env log_info "Device ID: %s, device secret: %s, product ID: %s\n"
    if not (is_zero daemon)
        then (do
          syslog env log_err "Failed to become a daemon: become_daemon() returned %d\n"
          pure exit_failure)
        else serve fuel arguments

  unfoldable pub main : ArgpParse → ℕ → Cmd ℤ
  main argp_parse fuel = do set_up_signal_handler; after_argp fuel (argp_parse parse_opt no_args)
