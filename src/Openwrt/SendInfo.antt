-- ===== src/Openwrt/SendInfo.antt =====
-- openwrt/tuya_daemon/src/send_info.c: requests to ubus services, with the answers reported to Tuya.
pub mod Replies
pub mod Requests
pub mod Memory
use tuya_daemon.Base.{
  ℕ, Bool, true, false, not, ◌||◌, Option, none, some, List, [], ◌∷◌, String, ℤ, is_zero,
  is_negative, if◌then◌else◌,
}
use tuya_daemon.World.{
  CharPtr, BlobType, int32, int64, string, table, array, Policy, Field, text, number, Event, Blob,
  Span, Env, uninitialised, fault, Cmd, pure, ◌>>=◌, ◌>>◌, call, syslog, malloc, free_block, free,
  lend, touch, read, log_err, log_debug,
}
use tuya_daemon.Openwrt.Ubus.{
  UbusResponse, uninitialised_response, DataCallback, ubus_invoke, blobmsg_format_json, blobmsg_add,
}

-- The enums that index the policies and the parsed tables.
abbrev pub total_memory : ℕ
total_memory = 0

abbrev pub free_memory : ℕ
free_memory = 1

abbrev pub shared_memory : ℕ
shared_memory = 2

abbrev pub buffered_memory : ℕ
buffered_memory = 3

abbrev pub available_memory : ℕ
available_memory = 4

abbrev pub cached_memory : ℕ
cached_memory = 5

abbrev pub memory_data : ℕ
memory_data = 0

abbrev pub devctl_device_count : ℕ
devctl_device_count = 0

abbrev pub devctl_device_list : ℕ
devctl_device_list = 1

abbrev pub devctl_ctl_status : ℕ
devctl_ctl_status = 0

abbrev pub devctl_ctl_message : ℕ
devctl_ctl_message = 1

abbrev policy : String → BlobType → Policy
policy name type = record { name = name; type = type }

abbrev pub memory_policy : List Policy
memory_policy =
    policy "total" int64
    ∷ policy "free" int64
    ∷ policy "shared" int64
    ∷ policy "buffered" int64
    ∷ policy "available" int64
    ∷ policy "cached" int64
    ∷ []

abbrev pub info_policy : List Policy
info_policy = policy "memory" table ∷ []

abbrev pub devctl_policy : List Policy
devctl_policy = policy "count" int32 ∷ policy "devices" array ∷ []

abbrev pub devctl_ctl_policy : List Policy
devctl_ctl_policy = policy "status" int32 ∷ policy "message" string ∷ []

abbrev pub is_null : Option Blob → Bool
is_null none = true
is_null (some _) = false

abbrev pub failed : UbusResponse → UbusResponse
failed resp = record resp { request_successful = some false }

abbrev pub succeeded : CharPtr → UbusResponse
succeeded json = record { request_successful = some true; data_json = json }

module _ (env : Env) where
  -- `none` is false, with `*id` undefined.
  unfoldable pub lookup_ubus_service : ℕ → String → Cmd (Option ℕ)
  lookup_ubus_service ubus_ctx ubus_service_name = do
    touch env ubus_ctx
    id ← read (λ s. env.ubus_id s.history)
    ret_val ← call env env.ubus_lookup_id (Event.ubus_lookup_id ubus_service_name)
    if not (is_zero ret_val)
        then (do syslog env log_err "ubus_lookup_id(%s) returned %d: %s"; pure none)
        else pure (some id)

  unfoldable pub report_property_to_tuya : CharPtr → Cmd Bool
  report_property_to_tuya msg = do
    lend env msg
    ret_val ← call env env.property_report (Event.property_report msg)
    if is_negative ret_val
        then (do
          syslog env log_err "Failed to send message to Tuya. Error core: %d, message data: %s"
          pure false)
        else pure true

  -- The test of the memory table: an unparsed table, or a missing field.
  unfoldable pub memory_incomplete : Blob → Bool
  memory_incomplete attr =
      let data_span = env.blobmsg_data attr in
      let memory = env.blobmsg_table memory_policy data_span in
      not (is_zero (env.blobmsg_parse memory_policy data_span))
      || is_null (memory total_memory)
      || is_null (memory free_memory)
      || is_null (memory shared_memory)
      || is_null (memory buffered_memory)
      || is_null (memory available_memory)
      || is_null (memory cached_memory)

  unfoldable pub ubus_received_mem_data_cb : DataCallback
  ubus_received_mem_data_cb msg resp =
      if not (is_zero (env.blobmsg_parse info_policy (env.blob_data msg)))
      then (do syslog env log_err "Failed to parse answer from ubus"; pure (failed resp))
      else elim (env.blobmsg_table info_policy (env.blob_data msg) memory_data) [
        | none ↦ do syslog env log_err "No memory data received from ubus"; pure (failed resp)
        | some attr ↦
            if memory_incomplete attr
            then (do syslog env log_err "Failed to parse memory data received"; pure (failed resp))
            else (do json ← blobmsg_format_json env attr; pure (succeeded json))
      ]

  -- The validity test of the two devctl callbacks, at their policy and its two fields.
  unfoldable pub answer_incomplete : List Policy → ℕ → ℕ → Blob → Bool
  answer_incomplete policy first second msg =
      let tb = env.blobmsg_table policy (env.blob_data msg) in
      not (is_zero (env.blobmsg_parse policy (env.blob_data msg)))
      || is_null (tb first)
      || is_null (tb second)

  unfoldable pub ubus_received_dev_list_cb : DataCallback
  ubus_received_dev_list_cb msg resp =
      if answer_incomplete devctl_policy devctl_device_count devctl_device_list msg
      then (do syslog env log_err "Failed to parse answer from ubus"; pure (failed resp))
      else (do json ← blobmsg_format_json env msg; pure (succeeded json))

  unfoldable pub ubus_dev_command_resp_cb : DataCallback
  ubus_dev_command_resp_cb msg resp =
      if answer_incomplete devctl_ctl_policy devctl_ctl_status devctl_ctl_message msg
      then (do syslog env log_err "Failed to parse answer from ubus"; pure (failed resp))
      else (do json ← blobmsg_format_json env msg; pure (succeeded json))

  -- The end that the three senders share: the answer is reported and freed.
  unfoldable pub report_answer : UbusResponse → Cmd Bool
  report_answer resp = do
    ret ← report_property_to_tuya resp.data_json
    free env resp.data_json
    pure ret

  -- `!resp.request_successful`, a read of an uninitialised variable if no reply has come.
  unfoldable pub read_success : UbusResponse → Cmd Bool
  read_success resp = elim resp.request_successful [ none ↦ fault uninitialised | some b ↦ pure b ]

  unfoldable pub send_memory_info : ℕ → Cmd Bool
  send_memory_info ubus_ctx = do
    found ← lookup_ubus_service ubus_ctx "system"
    elim found [
      | none ↦ pure false
      | some id ↦ do
        (ret_val, resp) ←
            ubus_invoke env ubus_ctx id "info" [] ubus_received_mem_data_cb uninitialised_response
        if not (is_zero ret_val)
            then (do syslog env log_err "Failed to get memory info from ubus: %s"; pure false)
            else (do good ← read_success resp; if not good then pure false else report_answer resp)
    ]

  unfoldable pub send_connected_devices_list : ℕ → Cmd Bool
  send_connected_devices_list ubus_ctx = do
    found ← lookup_ubus_service ubus_ctx "devctl"
    elim found [
      | none ↦ pure false
      | some id ↦ do
        (ret_val, resp) ←
            ubus_invoke env ubus_ctx id "list_devices" [] ubus_received_dev_list_cb
              uninitialised_response
        if not (is_zero ret_val)
            then (do syslog env log_err "Failed to get device list from ubus: %s"; pure false)
            else (do
              good ← read_success resp
              if not good
                  then pure false
                  else (do syslog env log_debug "Device list from devctl: %s"; report_answer resp))
    ]

  -- `b` after `blob_buf_init`: a heap block. The second field is added only if the first fits.
  unfoldable pub control_device_pin : ℕ → Bool → String → ℕ → Cmd Bool
  control_device_pin ubus_ctx turn_on device pin = do
    found ← lookup_ubus_service ubus_ctx "devctl"
    elim found [
      | none ↦ pure false
      | some id ↦ do
        b ← malloc env
        added ← blobmsg_add env (text "device" device)
        both ← (if added then blobmsg_add env (number "pin" pin) else pure false)
        if not both
            then (do syslog env log_err "Failed to add required fields"; pure false)
            else (do
              (ret_val, resp) ←
                  ubus_invoke env ubus_ctx id (if turn_on then "turn_on_pin" else "turn_off_pin")
                    (text "device" device ∷ number "pin" pin ∷ []) ubus_dev_command_resp_cb
                    uninitialised_response
              free_block env b
              if not (is_zero ret_val)
                  then (do
                    syslog env log_err "Failed to send command to devctl via ubus: %s"
                    pure false)
                  else (do
                    good ← read_success resp
                    if not good then pure false else report_answer resp))
    ]
