-- ===== src/Tests.antt =====
-- The theorems at concrete environments, states and texts, and runs of the definitions.
mod Runs
mod Hazards
use tuya_daemon.Base.{
  ℕ, ◌≤◌, ◌<◌, ◌≡◌, refl, ◌↔◌, true, false, some, [], ◌∷◌, member, if◌then◌else◌, none, arith, ◌+◌,
}
use tuya_daemon.World.{block, uninitialised, use_after_free, Bytes, bad_cast, null_deref}
use tuya_daemon.World.Logic.{Ends, Returns, with_blocks, At, At-view, Keeps, view, lifecycle}
use tuya_daemon.World.Trace.{streak, total, sleeps, attempts}
use tuya_daemon.Host.Args.{options, letter, key_end, argp_ok, argp_err_unknown, parse_opt}
use tuya_daemon.Host.Args.Complete.{keys, parse_opt-letter, parse_opt-end_iff}
use tuya_daemon.Host.Daemon.{become_daemon}
use tuya_daemon.Host.Daemon.Order.{Daemonised, become_daemon-Daemonised}
use tuya_daemon.Host.Connection
use tuya_daemon.Host.Connection.{send_current_time, free_date_time_format}
use tuya_daemon.Host.Connection.Format.{Settled, dynamic}
use tuya_daemon.Host.Connection.Report.{IsText, Sent, send_current_time-Sent}
use tuya_daemon.Host.Connection.Messages.{on_messages-Settled, free_date_time_format-Frees}
use tuya_daemon.Host.Main
use tuya_daemon.Host.Main.Connect.{Settles, connect_to_tuya-Settles}
use tuya_daemon.Host.Main.Loop.{Ended, GoesOn, main_loop_from-Ended}
use tuya_daemon.Host.Main.Clean.{Closed, serve-Closed}
use tuya_daemon.Samples.{
  action, calm, lossy, unreachable, mute, full, silent, serving, calm-Services,
  unreachable-Services, mute-Services, unreachable-StaysUp, mute-StaysUp, serving-IsLive,
  serving-IsServing, serving-Quits,
}
use tuya_daemon.Samples.Pc.{
  formatted, new_format, given, calm-Clock, calm-ValidJson, starting, initialised, formatted-Quits,
  initialised-Serving,
}
use tuya_daemon.Samples.Endings.{
  signalled, signalled-Arrives, parsing, parting, parting-Arrives, parting-Farewell,
  parting-Services, parting-StaysUp, signalled-Clock, signalled-ValidJson, starting-unused,
  negative, leaving, nameless,
}
use tuya_daemon.Openwrt.Args.{str_to_digit, str_to_bool, uci_get_option}
use tuya_daemon.Openwrt.Args.Options.{flag, str_to_digit_iff, str_to_bool_iff, uci_get_option-Value}
use tuya_daemon.Openwrt.Walks.Reports.{IsMemoryReply, IsDevctlReply}
use tuya_daemon.Openwrt.Walks.Reports.Senders.{
  Sends, send_memory_info-Sends, send_connected_devices_list-Sends, control_device_pin-Sends,
}
use tuya_daemon.Openwrt.SendInfo.{
  devctl_policy, devctl_ctl_policy, send_memory_info, send_connected_devices_list,
  control_device_pin,
}
use tuya_daemon.Openwrt.SendInfo.Memory.{
  send_memory_info-Keeps, send_connected_devices_list-Keeps, control_device_pin-Keeps,
}
use tuya_daemon.Openwrt.Connection.{
  connect_to_tuya, on_messages, requested_action, action_arguments, tuya_mqtt_disconnect,
}
use tuya_daemon.Openwrt.Connection.Memory.{on_messages-Keeps}
use tuya_daemon.Openwrt.Connection.Lifecycle.{Connected, connect_to_tuya-Connected}
use tuya_daemon.Openwrt.Connection.Retries.{Same}
use tuya_daemon.Openwrt.Main.{main, main_loop, main_loop_from, valid_level}
use tuya_daemon.Openwrt.Main.LogLevel.{log_level_iff}
use tuya_daemon.Openwrt.Main.Loop.{LoopEnd, main_loop-LoopEnd}
use tuya_daemon.World.Faults.{Faults}
use tuya_daemon.Openwrt.Hazards.{
  main_loop_disconnected, send_memory_info_unanswered, control_device_pin_no_room,
}
use tuya_daemon.World.Steps.{final}
use tuya_daemon.World.Steps.Invariants.{Adds}
use tuya_daemon.World.Steps.Finish.{Finishes}
use tuya_daemon.Openwrt.Walks.Wanted.{wanted, pin_fields}
use tuya_daemon.Openwrt.Walks.Wanted.Asks.{IsWanted, on_messages-IsWanted}
use tuya_daemon.Openwrt.Walks.Moments.Daemon.{MayInvoke, main-MayInvoke}
use tuya_daemon.Openwrt.Walks.Stops.{main_signalled-Finishes}
use tuya_daemon.Host.Walks.Run.{IsPermitted, asked_daemon, main-IsPermitted}
use tuya_daemon.Host.Walks.Stops.{main-Finishes}
use tuya_daemon.Openwrt.Main.Whole
use tuya_daemon.Openwrt.Main.Whole.{main-Ended, main_signalled-Ended}
use tuya_daemon.Host.Main.Whole.{main-Returns}
use tuya_daemon.Openwrt.Connection.Bounds.{connect_to_tuya-bounded}
use tuya_daemon.Openwrt.Hazards.Inputs.{on_messages_negative_pin, run_mqtt_without_ubus}
use tuya_daemon.Host.Hazards.{on_messages_element}

abbrev seven : Bytes
seven = b'7' ∷ []

abbrev one : Bytes
one = b'1' ∷ []

str_to_bool_iff_example : (str_to_bool one ≡ some true) ↔ (one ≡ flag true)
str_to_bool_iff_example = str_to_bool_iff one true

log_level_iff_example : (valid_level (str_to_digit seven) ≡ some 7) ↔ ((7 ≤ 7) × (seven ≡ seven))
log_level_iff_example = log_level_iff seven 7

uci_get_option-Value_example :
    Returns
      (λ r u. At (view serving) u × (r ≡ some (b'7' ∷ [])))
      (uci_get_option calm
        (block 1 "tuya.tuya_daemon.log_level")
        "tuya.tuya_daemon.log_level"
        serving)
uci_get_option-Value_example =
    uci_get_option-Value calm 1 "tuya.tuya_daemon.log_level" "tuya.tuya_daemon.log_level"
      (At-view serving) refl

send_memory_info-Keeps_example : Returns (Keeps (view serving)) (send_memory_info calm 1 serving)
send_memory_info-Keeps_example =
    send_memory_info-Keeps calm calm-Services.replies 1 serving-IsLive (At-view serving)

send_memory_info-Sends_example : Sends calm (IsMemoryReply calm) (send_memory_info calm 1) serving
send_memory_info-Sends_example = send_memory_info-Sends calm 1 serving

send_connected_devices_list-Sends_example :
    Sends calm (IsDevctlReply calm devctl_policy) (send_connected_devices_list calm 1) serving
send_connected_devices_list-Sends_example = send_connected_devices_list-Sends calm 1 serving

control_device_pin-Sends_example :
    Sends calm
      (IsDevctlReply calm devctl_ctl_policy)
      (control_device_pin calm 1 true "esp" 5)
      serving
control_device_pin-Sends_example = control_device_pin-Sends calm 1 serving true "esp" 5

on_messages-Keeps_example : Returns (Keeps (view serving)) (on_messages calm 1 action serving)
on_messages-Keeps_example =
    on_messages-Keeps calm calm-Services 1 serving-IsLive (At-view serving) action

connect_to_tuya-Connected_example :
    Ends
      (λ r u. Connected [] r u × Same (view serving) u)
      (Same (view serving))
      (connect_to_tuya unreachable 4 serving)
unfolding lifecycle
connect_to_tuya-Connected_example =
    connect_to_tuya-Connected unreachable unreachable-Services unreachable-StaysUp 1 4 serving-Quits
      serving serving-IsServing (At-view serving)

main_loop-LoopEnd_example :
    Ends
      (λ b u. LoopEnd b u × Same (view serving) u)
      (λ u. (streak (lifecycle u.history) < 10) × Same (view serving) u)
      (main_loop mute 12 1 serving)
unfolding streak lifecycle
main_loop-LoopEnd_example =
    main_loop-LoopEnd mute mute-Services mute-StaysUp 1 12 serving serving-IsServing refl
      (At-view serving)

become_daemon-Daemonised_example : Daemonised [] (become_daemon calm formatted)
become_daemon-Daemonised_example = become_daemon-Daemonised calm formatted

parse_opt-letter_example :
    (parse_opt (letter b's') (some one) given).status
    ≡ (if member b's' (keys options) then argp_ok else argp_err_unknown)
parse_opt-letter_example = parse_opt-letter b's' (some one) given

parse_opt-end_iff_example : ((parse_opt key_end none given).status ≡ argp_ok) ↔ (
    (i s p : Bytes) × (given.device_id ≡ some i)
    × (given.device_secret ≡ some s)
    × (given.product_id ≡ some p))
parse_opt-end_iff_example = parse_opt-end_iff none given

send_current_time-Sent_example :
    Returns (λ r u. At (view formatted) u × Sent calm "%H" r u) (send_current_time calm formatted)
send_current_time-Sent_example =
    send_current_time-Sent calm calm-Clock "%H" formatted (At-view formatted)
      (IsText.owned 4 "%H" refl)

on_messages-Settled_example :
    Returns
      (λ _ u. Settled (9 ∷ []) (view formatted) (some "%H:%M") u)
      (Connection.on_messages calm new_format formatted)
on_messages-Settled_example =
    on_messages-Settled calm calm-ValidJson (dynamic 4 "%H") new_format (At-view formatted)

connect_to_tuya-Settles_example :
    Returns (Settles (9 ∷ []) []) (Main.connect_to_tuya calm initialised)
connect_to_tuya-Settles_example =
    connect_to_tuya-Settles calm calm-Clock calm-ValidJson initialised initialised-Serving

main_loop_from-Ended_example :
    Ends (Ended (9 ∷ [])) (GoesOn (9 ∷ [])) (Main.main_loop_from calm 12 0 initialised)
unfolding streak
main_loop_from-Ended_example =
    main_loop_from-Ended calm calm-Clock calm-ValidJson 12 0 initialised initialised-Serving refl
      (omega arith)

serve-Closed_example :
    Ends (Closed (9 ∷ []) []) (GoesOn (9 ∷ [])) (Main.serve calm 12 given starting)
unfolding lifecycle
serve-Closed_example =
    serve-Closed calm calm-Clock calm-ValidJson 12 given starting "%F %T%z" refl refl refl
      formatted-Quits (At-view starting)

on_messages-IsWanted_example :
    Adds (IsWanted calm action) serving.history (final (on_messages calm 1 action serving)).history
on_messages-IsWanted_example = on_messages-IsWanted calm 1 action serving

-- The message of the samples asks for a pin to be turned on.
turns_on_pin : wanted calm action ≡ some ("turn_on_pin", pin_fields "turn_on_pin" 5)
unfolding wanted requested_action action_arguments
turns_on_pin = refl

connect_to_tuya-bounded_example :
    Ends
      (λ _ u.
        (total (sleeps (lifecycle u.history)) ≤ 2046 + total (sleeps (view serving).trace))
        × (attempts (lifecycle u.history) ≤ 11 + attempts (view serving).trace))
      (λ _. Unit)
      (connect_to_tuya unreachable 4 serving)
connect_to_tuya-bounded_example =
    connect_to_tuya-bounded unreachable unreachable-Services unreachable-StaysUp 1 4 serving
      serving-Quits serving-IsServing (At-view serving)
