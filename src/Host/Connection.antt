-- ===== src/Host/Connection.antt =====
-- tuya_daemon/connection.c: the report of the current time, and the callbacks of the MQTT library.
pub mod Payload
pub mod Report
pub mod Format
pub mod Messages
use tuya_daemon.Base.{
  ℕ, ◌+◌, ◌-◌, true, not, Option, none, some, [], ◌∷◌, ◌++◌, String, ℤ, pos, negsuc, is_negative,
  minus_one, minus_two, minus_three, leb, strcmp_eq, if◌then◌else◌, length, ◌==◌,
}
use tuya_daemon.Thing.{ThingType, property_set, property_report_rsp}
use tuya_daemon.World.{
  Bytes, CharPtr, null, block, Event, Json, Message, Env, null_deref, fault, Cmd, pure, ◌>>=◌, ◌>>◌,
  skip, read, modify, call, tell, syslog, malloc, free_block, free, deref, log_alert, log_err,
  log_info,
}
use tuya_daemon.Host.Buffer.{char_array, c_string, strlen, store, store_all}

-- The length that `get_time_string` returns, if it is not negative.
abbrev pub given_length : ℤ → Option ℕ
given_length (pos n) = some n
given_length (negsuc n) = none

-- `{"time":"`, as bytes.
abbrev pub time_prefix : Bytes
time_prefix = b'{' ∷ b'"' ∷ b't' ∷ b'i' ∷ b'm' ∷ b'e' ∷ b'"' ∷ b':' ∷ b'"' ∷ []

-- What `get_time_string` returns, and the buffer after it.
abbrev pub TimeString : Type 0
TimeString = ℤ × Bytes

module _ (env : Env) where
  unfoldable pub set_date_time_format : CharPtr → Cmd (Unit {0})
  set_date_time_format format = do
    should_free ← read (λ s. s.date_time_format_should_free)
    old ← read (λ s. s.date_time_format)
    if should_free then free env old else skip
    modify (λ s. record s { date_time_format_should_free = true; date_time_format = format })

  unfoldable pub free_date_time_format : Cmd (Unit {0})
  free_date_time_format = do
    should_free ← read (λ s. s.date_time_format_should_free)
    old ← read (λ s. s.date_time_format)
    if should_free then free env old else skip

  -- `str` is `buf + offset`. A negative status leaves the buffer as it was: what `strftime` leaves
  -- behind when it returns 0 is not read.
  unfoldable pub get_time_string : Bytes → ℕ → ℕ → CharPtr → Cmd TimeString
  get_time_string buf offset str_size format = do
    known ← call env env.time Event.time
    if not known
        then (do syslog env log_err "failed to get current time"; pure (minus_one, buf))
        else (do
          local ← call env env.localtime Event.localtime
          if not local
              then (do
                syslog env log_err "failed to convert current time to local time"
                pure (minus_two, buf))
              else (do
                text ← deref env format
                written ←
                    call env (λ h. env.strftime h str_size text) (λ _. Event.strftime str_size text)
                if length written == 0
                    then (do
                      syslog env log_err
                          "string representation of date (format '%s') does not fit into a buffer of size %lu"
                      pure (minus_three, buf))
                    else (do
                      buf' ← store_all buf offset (written ++ (0 ∷ []))
                      pure (pos (length written), buf'))))

  -- `buf` from the check of the length on.
  unfoldable pub finish_report : Bytes → ℕ → ℕ → Cmd ℤ
  finish_report buf used time_length =
      if leb (length buf) (used + time_length + 2)
      then (do
        syslog env log_err "Time report message does not fit in buffer with length %ld: %s"
        pure minus_two)
      else (do
        buf1 ← store buf (used + time_length) b'"'
        buf2 ← store buf1 (used + time_length + 1) b'}'
        buf3 ← store buf2 (used + time_length + 2) 0
        ret ← call env env.property_report_with_ack (Event.property_report_with_ack (c_string buf3))
        if is_negative ret
            then (do syslog env log_err "Failed to send current time: %s"; pure minus_three)
            else pure (pos 0))

  unfoldable pub send_current_time : Cmd ℤ
  send_current_time =
      let buf = char_array 200 time_prefix in
      let used = strlen buf in
      do
        format ← read (λ s. s.date_time_format)
        (ret, buf') ← get_time_string buf used (length buf - used) format
        elim (given_length ret) [
          | none ↦ pure minus_one
          | some time_length ↦ finish_report buf' used time_length
        ]

  -- It ignores what `send_current_time` returns.
  unfoldable pub on_connected : Cmd (Unit {0})
  on_connected = do syslog env log_info "connected to Tuya cloud"; _ ← send_current_time; skip

  unfoldable pub on_disconnect : Cmd (Unit {0})
  on_disconnect = syslog env log_info "Disconnected from Tuya cloud"

  -- The text of `data->valuestring` is a heap block of its own, which `cJSON_Delete` frees with
  -- the tree unless the field has been set to NULL.
  unfoldable pub parse_valuestring : Option Json → Cmd CharPtr
  parse_valuestring none = pure null
  parse_valuestring (some data_json) = elim (env.valuestring data_json) [
    | none ↦ pure null
    | some t ↦ do a ← malloc env; pure (block a t)
  ]

  unfoldable pub cjson_delete : ℕ → CharPtr → Cmd (Unit {0})
  cjson_delete full_data valuestring = do
    free env valuestring
    free_block env full_data
    tell env Event.json_delete

  -- The body of the case between the parse and `json_cleanup`; it returns `data->valuestring`.
  unfoldable pub set_property : Option Json → CharPtr → Cmd CharPtr
  set_property none valuestring = do
    syslog env log_err "PROPERTY_SET message has unexpected structure"
    pure valuestring
  set_property (some data_json) valuestring = elim (env.json_name data_json) [
    | none ↦ fault null_deref
    | some name ↦
        if not (strcmp_eq name "date_time_format")
        then (do
          syslog env log_err "PROPERTY_SET wants to set unknown property with name: %s"
          pure valuestring)
        else elim valuestring [
          | null ↦ do
            syslog env log_err "PROPERTY_SET field 'date_time_format' has no value"
            pure null
          | given ↦ do
            set_date_time_format given
            syslog env log_info "Setting date time format to '%s'"
            pure null
        ]
  ]

  -- `full_data->child` is read with no test of `full_data`.
  unfoldable pub property_set_message : String → Cmd (Unit {0})
  property_set_message data_string = do
    tell env Event.json_parse
    elim (env.cjson_parse data_string) [
      | none ↦ fault null_deref
      | some json ↦ do
        full_data ← malloc env
        valuestring ← parse_valuestring (env.child json)
        rest ← set_property (env.child json) valuestring
        cjson_delete full_data rest
    ]

  unfoldable pub handle_type : ThingType → String → Cmd (Unit {0})
  handle_type property_set data_string = do
    syslog env log_info "Got message type PROPERTY_SET: %s"
    property_set_message data_string
  handle_type property_report_rsp data_string =
      syslog env log_info "Got message type PROPERTY_REPORT_RSP"
  handle_type _ data_string = syslog env log_alert "unrecognized message type received: %s"

  unfoldable pub on_messages : Message → Cmd (Unit {0})
  on_messages msg = do
    syslog env log_info "on message id:%s, type:%d, code:%d"
    handle_type msg.type msg.data_string
