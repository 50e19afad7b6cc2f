-- ===== src/Openwrt/Main.antt =====
-- openwrt/tuya_daemon/src/main.c: the daemon's life from the options to the clean-up.
pub mod Loop
pub mod LogLevel
pub mod Closing
pub mod Opening
pub mod Serving
pub mod Names
pub mod Configured
pub mod Whole
pub mod Decided
pub mod Starts
use tuya_daemon.Base.{
  ℕ, zero, suc, ◌+◌, Bool, true, false, not, Option, none, some, List, [], ◌∷◌, ℤ, pos, is_zero,
  ltb, ◌==◌, if◌then◌else◌, get_elem?,
}
use tuya_daemon.World.{
  Bytes, CharPtr, Event, Env, unfinished, fault, null_deref, Cmd, pure, ◌>>=◌, ◌>>◌, when, read,
  call, tell, syslog, sleep, free, strdup, log_emerg, log_alert, log_crit, log_err, log_warning,
  log_notice, log_info, log_debug, log_upto,
}
use tuya_daemon.Openwrt.Signals.{set_up_signal_handler}
use tuya_daemon.Openwrt.Args.{uci_get_option, str_to_digit}
use tuya_daemon.Openwrt.SendInfo.{send_memory_info}
use tuya_daemon.Openwrt.Connection.{
  tuya_mqtt_loop, tuya_mqtt_disconnect, init_connections, connect_to_tuya,
}

abbrev pub exit_success : ℤ
exit_success = pos 0

abbrev pub exit_failure : ℤ
exit_failure = pos 1

abbrev pub log_priorities : List ℕ
log_priorities =
    log_emerg ∷ log_alert ∷ log_crit ∷ log_err ∷ log_warning ∷ log_notice ∷ log_info ∷ log_debug
    ∷ []

abbrev pub priority_at : ℕ → ℕ
priority_at i = elim (get_elem? log_priorities i) [ none ↦ 0 | some p ↦ p ]

-- The four options with their values, if all are specified.
abbrev pub all_options :
    Option Bytes
    → Option Bytes
    → Option Bytes
    → Option Bytes
    → Option (Bytes × Bytes × Bytes × Bytes)
all_options (some a) (some b) (some c) (some d) = some (a, b, c, d)
all_options _ _ _ _ = none

-- `str_to_digit(...)` and `log_level > 7` of the guard.
abbrev pub valid_level : Option ℕ → Option ℕ
valid_level none = none
valid_level (some n) = if ltb 7 n then none else some n

module _ (env : Env) where
  -- libuci reads the context that it frees, so that it must not be NULL.
  unfoldable pub uci_free_context : Bool → Cmd (Unit {0})
  uci_free_context have_uci = if have_uci then tell env Event.uci_free_context else fault null_deref

  -- The `while` loop on fuel, from its variable `send_fail_count`.
  unfoldable pub main_loop_from : ℕ → ℕ → ℕ → Cmd Bool
  main_loop_from zero send_fail_count ubus_ctx = unfinished
  main_loop_from (suc fuel) send_fail_count ubus_ctx = do
    running ← read (λ s. s.keep_running)
    if running == 1
        then (do
          ret ← tuya_mqtt_loop env
          if not (is_zero ret) then (do syslog env log_err "Tuya MQTT error"; pure false) else (do
            sleep env 10
            sent ← send_memory_info env ubus_ctx
            if not sent
                then (do
                  syslog env log_notice "Error sending information, retrying in 10 seconds"
                  if send_fail_count + 1 == 10
                      then (do syslog env log_err "Error sending information"; pure false)
                      else main_loop_from fuel (send_fail_count + 1) ubus_ctx)
                else main_loop_from fuel 0 ubus_ctx))
        else pure true

  unfoldable pub main_loop : ℕ → ℕ → Cmd Bool
  main_loop fuel ubus_ctx = main_loop_from fuel 0 ubus_ctx

  -- From the call of `connect_to_tuya` to the label `cleanup_mqtt`.
  unfoldable pub serve : ℕ → ℕ → Cmd ℤ
  serve fuel ubus_ctx = do
    ret_val ← connect_to_tuya env fuel
    if not (is_zero ret_val) then pure ret_val else (do
      good ← main_loop fuel ubus_ctx
      running ← read (λ s. s.keep_running)
      when (running == 0) (syslog env log_info "Got signal to exit")
      pure (if good then ret_val else exit_failure))

  -- From `init_connections` to the label `cleanup_end`.
  unfoldable pub run_mqtt : ℕ → Bytes → Bytes → Cmd ℤ
  run_mqtt fuel device_id device_secret = do
    (status, ubus_ctx) ← init_connections env device_id device_secret
    ret_val ← (if not (is_zero status) then pure status else serve fuel ubus_ctx)
    _ ← tuya_mqtt_disconnect env
    _ ← call env env.tuya_mqtt_deinit Event.mqtt_deinit
    pure ret_val

  -- From the parsed options to the label `cleanup_end`.
  unfoldable pub configured : ℕ → Bytes → Bytes → Bytes → Cmd ℤ
  configured fuel device_id device_secret log_level_str =
      elim (valid_level (str_to_digit log_level_str)) [
        | none ↦ do
          syslog env log_err "Unrecognized value for option 'log_level': %s"
          pure exit_failure
        | some log_level ↦ do
          tell env (Event.setlogmask (log_upto (priority_at log_level)))
          syslog env log_debug
              "Options: device ID: %s, device secret: %s, product ID: %s, log_level: %d"
          run_mqtt fuel device_id device_secret
      ]

  -- The body of `main` from the test of `uci_ctx`, which is NULL unless `have_uci`, to the label
  -- `cleanup_end`.
  unfoldable pub run_daemon : ℕ → Bool → CharPtr → CharPtr → CharPtr → CharPtr → Cmd ℤ
  run_daemon fuel have_uci name0 name1 name2 name3 =
      if not have_uci
      then (do syslog env log_err "Failed to allocate UCI context"; pure exit_failure)
      else (do
        device_id ← uci_get_option env name0 "tuya.tuya_daemon.device_id"
        device_secret ← uci_get_option env name1 "tuya.tuya_daemon.device_secret"
        product_id ← uci_get_option env name2 "tuya.tuya_daemon.product_id"
        log_level_str ← uci_get_option env name3 "tuya.tuya_daemon.log_level"
        elim (all_options device_id device_secret product_id log_level_str) [
          | none ↦ pure exit_failure
          | some (id, secret, product, level) ↦ configured fuel id secret level
        ])

  unfoldable pub main : ℕ → Cmd ℤ
  main fuel = do
    set_up_signal_handler env
    tell env (Event.openlog "tuya_daemon")
    name0 ← strdup env "tuya.tuya_daemon.device_id"
    name1 ← strdup env "tuya.tuya_daemon.device_secret"
    name2 ← strdup env "tuya.tuya_daemon.product_id"
    name3 ← strdup env "tuya.tuya_daemon.log_level"
    have_uci ← call env env.uci_alloc_context Event.uci_alloc_context
    ret_val ← run_daemon fuel have_uci name0 name1 name2 name3
    syslog env log_info "Cleaning up resources and exiting"
    free env name0
    free env name1
    free env name2
    free env name3
    uci_free_context have_uci
    tell env Event.closelog
    pure ret_val
