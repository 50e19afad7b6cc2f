-- ===== src/World/Environment.antt =====
-- The code that is not part of the repository, as parameters: libtuya, libubus, libuci, cJSON,
-- libc and the kernel. Each call is answered by a function of all that has happened before, so
-- every sequence of answers, and every order of callbacks and signals, is one environment.
use tuya_daemon.Base.{ℕ, Bool, Option, List, String, ℤ}
use tuya_daemon.World.State.{Bytes, Signal, UciStatus, Policy, History}
use tuya_daemon.Thing.{ThingType}

-- An attribute of a blob message, and the data that `blob_data` or `blobmsg_data` points at.
abbrev pub Blob : Type 0
Blob = ℕ

abbrev pub Span : Type 0
Span = ℕ

-- A cJSON value, a pointer that is not NULL.
abbrev pub Json : Type 0
Json = ℕ

-- `tuyalink_message_t`: the type, the id, the code and the text of the data.
pub record Message : Type 0 where
  pub type : ThingType
  pub msgid : String
  pub code : ℕ
  pub data_string : String

-- What the MQTT library reports through the callbacks of its configuration.
pub data Callback : Type 0 where
  connected disconnected : Callback
  message : Message → Callback

-- `struct uci_ptr` after a lookup: is `UCI_LOOKUP_COMPLETE` set, is `o->type` the string type, and
-- `o->v.string`.
pub record UciPtr : Type 0 where
  pub complete : Bool
  pub is_string : Bool
  pub value : Bytes

pub record Env : Type 0 where
  pub signal : History → Option Signal
  -- libtuya
  pub tuya_mqtt_init : History → ℤ
  pub tuya_mqtt_connect : History → ℤ
  pub tuya_mqtt_connected : History → Bool
  pub loop_callbacks : History → List Callback
  pub tuya_mqtt_loop : History → ℤ
  pub disconnect_callbacks : History → List Callback
  pub tuya_mqtt_disconnect : History → ℤ
  pub tuya_mqtt_deinit : History → ℤ
  pub property_report : History → ℤ
  pub property_report_with_ack : History → ℤ
  -- cJSON; the number of a value is the integral part of its double, absent for NaN and infinity.
  pub cjson_parse : String → Option Json
  pub cjson_get_object_item : Option Json → String → Option Json
  pub cjson_get_string_value : Option Json → Option String
  pub cjson_is_number : Json → Bool
  pub valuedouble : Json → Option ℤ
  pub child : Json → Option Json
  pub json_name : Json → Option String
  pub valuestring : Json → Option String
  -- libuci
  pub uci_alloc_context : History → Bool
  pub uci_lookup_ptr : History → String → UciStatus
  pub uci_ptr : History → String → UciPtr
  -- libubus and libubox
  pub ubus_connect : History → Bool
  pub ubus_lookup_id : History → ℤ
  pub ubus_id : History → ℕ
  pub ubus_replies : History → List Blob
  pub ubus_invoke : History → ℤ
  pub blobmsg_add : History → Bool
  pub blob_data : Blob → Span
  pub blobmsg_data : Blob → Span
  pub blobmsg_parse : List Policy → Span → ℤ
  pub blobmsg_table : List Policy → Span → ℕ → Option Blob
  pub blobmsg_format_json : Blob → Option String
  -- libc and the kernel
  pub fork : History → ℤ
  pub setsid : History → ℤ
  pub open_null : History → ℤ
  pub dup : History → ℤ
  pub time : History → Bool
  pub localtime : History → Bool
  -- The bytes that strftime stores before the NUL, empty where it returns 0.
  pub strftime : History → ℕ → String → Bytes
