-- ===== src/Tests/Hazards.antt =====
-- What goes wrong, at concrete environments and states.
use tuya_daemon.Base.{ℕ, ◌≡◌, refl, true, false, [], ◌∷◌}
use tuya_daemon.World.{uninitialised, use_after_free, bad_cast, null_deref}
use tuya_daemon.World.Logic.{Returns, with_blocks, At, At-view, view}
use tuya_daemon.Host.Connection
use tuya_daemon.Host.Connection.{send_current_time, free_date_time_format}
use tuya_daemon.Samples.{action, lossy, full, silent, serving, serving-IsLive}
use tuya_daemon.Samples.Pc.{new_format, initialised, starting}
use tuya_daemon.Samples.Endings.{negative, leaving, nameless}
use tuya_daemon.Openwrt.SendInfo.{send_memory_info, control_device_pin}
use tuya_daemon.Openwrt.Connection.{on_messages, requested_action, action_arguments}
use tuya_daemon.Openwrt.Main.{main_loop_from, run_mqtt}
use tuya_daemon.World.Faults.{Faults}
use tuya_daemon.Openwrt.Hazards.{
  main_loop_disconnected, send_memory_info_unanswered, control_device_pin_no_room,
}
use tuya_daemon.Openwrt.Hazards.Inputs.{on_messages_negative_pin, run_mqtt_without_ubus}
use tuya_daemon.Host.Hazards.{on_messages_element}

main_loop_disconnected_example : Faults use_after_free (main_loop_from lossy 3 0 1 serving)
main_loop_disconnected_example =
    main_loop_disconnected lossy serving 1 (b'i' ∷ []) (b's' ∷ []) refl
      record { ne_null = refl; live = refl; once = refl } 2 0 refl refl (λ h. refl)

send_memory_info_unanswered_example : Faults uninitialised (send_memory_info silent 1 serving)
send_memory_info_unanswered_example =
    send_memory_info_unanswered silent 1 serving-IsLive (λ h. refl) (λ h. refl) (λ h. refl) serving
      (At-view serving)

control_device_pin_no_room_example :
    Returns
      (λ r u. (r ≡ false) × (a : ℕ) × At (with_blocks (a ∷ 1 ∷ []) (view serving)) u)
      (control_device_pin full 1 true "esp" 5 serving)
control_device_pin_no_room_example =
    control_device_pin_no_room full serving 1 serving-IsLive (At-view serving) (λ h. refl) true
      "esp" 5 (λ h. refl)

on_messages_negative_pin_example : Faults bad_cast (on_messages negative 1 action serving)
unfolding requested_action action_arguments
on_messages_negative_pin_example =
    on_messages_negative_pin negative 1 action 1 "turn_on_pin" "turn_on_pin" 1 0 serving refl refl
      refl refl refl refl

run_mqtt_without_ubus_example :
    Faults null_deref (run_mqtt leaving 3 (b'i' ∷ []) (b's' ∷ []) starting)
run_mqtt_without_ubus_example =
    run_mqtt_without_ubus leaving (b'i' ∷ []) (b's' ∷ []) 3 starting (λ h. refl) (λ h. refl)
      (λ h. refl)

on_messages_element_example :
    Faults null_deref (Connection.on_messages nameless new_format initialised)
on_messages_element_example =
    on_messages_element nameless new_format 1 1 initialised refl refl refl refl
