-- ===== src/Openwrt/Walks/Senders.antt =====
-- The runs of the OpenWrt daemon as steps: the reports and the three senders of send_info.c.
use tuya_daemon.Base.{ℕ, Bool, [], ◌∷◌, String, ℤ, if◌then◌else◌, is_negative, not}
use tuya_daemon.World.{CharPtr, text, number, Event, Env, Sys}
use tuya_daemon.World.Steps.{
  Walk, pure-Walk, if-Walk, option-Walk, bind, call-Walk, malloc-Walk, free_block-Walk, free-Walk,
  lend-Walk,
}
use tuya_daemon.Openwrt.Ubus.{UbusResponse, blobmsg_add}
use tuya_daemon.Openwrt.SendInfo.{
  report_property_to_tuya, report_answer, send_memory_info, send_connected_devices_list,
  control_device_pin,
}
use tuya_daemon.Openwrt.Walks.{
  Ordinary, told, logged, lookup-Walk, add-Walk, mem_data-Walk, dev_list-Walk, dev_command-Walk,
  invoke-Walk, settle-Walk,
}

module _ {env : Env} {Allowed : Event → Type 0} {Loops : Type 0}
    (base : (e : Event) → Ordinary e → Allowed e)
    (sent : (p : CharPtr) (ret : ℤ) → Allowed (Event.property_report p ret)) where
  report-Walk :
      {s : Sys} (msg : CharPtr) → Walk env Allowed Loops s (report_property_to_tuya env msg s)
  unfolding report_property_to_tuya
  report-Walk msg = bind (lend-Walk msg) λ _ u.
      bind (call-Walk _ _ (sent msg))
        λ ret v. if-Walk (is_negative ret) _ _ (logged base _ _ _) pure-Walk

  report_answer-Walk :
      {s : Sys} (r : UbusResponse) → Walk env Allowed Loops s (report_answer env r s)
  unfolding report_answer
  report_answer-Walk r = bind (report-Walk _) λ ret u. bind (free-Walk _) λ _ v. pure-Walk

  pub send_memory_info-Walk :
      {s : Sys} (c : ℕ)
      → ((id : ℕ) (ret : ℤ) → Allowed (Event.ubus_invoke id "info" [] ret))
      → Walk env Allowed Loops s (send_memory_info env c s)
  unfolding send_memory_info
  send_memory_info-Walk c allowed = bind (lookup-Walk base c _) λ found u.
      option-Walk found _ _ pure-Walk λ id.
        bind (invoke-Walk base c id _ _ _ _ (mem_data-Walk base) (allowed id))
          λ a v. settle-Walk base a.0 a.1 _ _ (λ _. report_answer-Walk a.1)

  pub send_connected_devices_list-Walk :
      {s : Sys} (c : ℕ)
      → ((id : ℕ) (ret : ℤ) → Allowed (Event.ubus_invoke id "list_devices" [] ret))
      → Walk env Allowed Loops s (send_connected_devices_list env c s)
  unfolding send_connected_devices_list
  send_connected_devices_list-Walk c allowed = bind (lookup-Walk base c _) λ found u.
      option-Walk found _ _ pure-Walk λ id.
        bind (invoke-Walk base c id _ _ _ _ (dev_list-Walk base) (allowed id)) λ a v.
          settle-Walk base a.0 a.1 _ _ (λ x. bind (told base _ tt) λ _ w. report_answer-Walk a.1)

  pub control_device_pin-Walk :
      {s : Sys} (c : ℕ) (turn_on : Bool) (device : String) (pin : ℕ)
      → ((id : ℕ) (ret : ℤ)
          → Allowed (
              Event.ubus_invoke id
                (if turn_on then "turn_on_pin" else "turn_off_pin")
                (text "device" device ∷ number "pin" pin ∷ [])
                ret))
      → Walk env Allowed Loops s (control_device_pin env c turn_on device pin s)
  unfolding control_device_pin
  control_device_pin-Walk c turn_on device pin allowed = bind (lookup-Walk base c _) λ found u.
      option-Walk found _ _ pure-Walk λ id. bind malloc-Walk λ b v.
        bind (add-Walk base _) λ added w.
          bind (if-Walk added (blobmsg_add env _) _ (add-Walk base _) pure-Walk) λ both x.
            if-Walk (not both) _ _ (logged base _ _ _) (
              bind (invoke-Walk base c id _ _ _ _ (dev_command-Walk base) (allowed id)) λ a y.
                bind (free_block-Walk b)
                  λ _ z. settle-Walk base a.0 a.1 _ _ (λ _. report_answer-Walk a.1))
