-- ===== src/World/State.antt =====
-- The state of a process, and the events that its calls into the outside leave behind.
use tuya_daemon.Base.{ℕ, Bool, Option, List, String, ℤ}

abbrev pub Bytes : Type 0
Bytes = List ℕ

-- SIGINT and SIGTERM, the two signals that the daemons handle.
pub data Signal : Type 0 where
  sigint sigterm : Signal

-- A signal handler gets the number of the signal and the global that it may write.
abbrev pub SignalHandler : Type 0
SignalHandler = ℕ → ℕ → ℕ

-- A `char *`: uninitialised, NULL, into static storage, or the address of a heap block.
pub data CharPtr : Type 0 where
  unset null : CharPtr
  literal : String → CharPtr
  block : ℕ → String → CharPtr

-- The functions of connection.c that `tuya_mqtt_config_t` can name.
pub data Handler : Type 0 where
  on_connected_handler on_disconnect_handler on_messages_handler : Handler

-- `tuya_mqtt_config_t`; `cacert_pem` says that the certificate is `tuya_cacert_pem` with its size.
-- An id or a secret that is `none` is NULL.
pub record Config : Type 0 where
  pub host : String
  pub port : ℕ
  pub cacert_pem : Bool
  pub device_id : Option Bytes
  pub device_secret : Option Bytes
  pub keepalive : ℕ
  pub timeout_ms : ℕ
  pub on_connected : Handler
  pub on_disconnect : Handler
  pub on_messages : Handler

-- `tuya_mqtt_context_t`, as far as the daemons see it: `config` is absent before `tuya_mqtt_init`
-- has succeeded, and `user_data` is an address, 0 for NULL.
pub record Context : Type 0 where
  pub config : Option Config
  pub user_data : ℕ

pub data BlobType : Type 0 where
  int32 int64 string table array : BlobType

-- `struct blobmsg_policy`.
pub record Policy : Type 0 where
  pub name : String
  pub type : BlobType

-- What `uci_lookup_ptr` returns: the code tells `UCI_ERR_NOTFOUND` from all else.
pub data UciStatus : Type 0 where
  uci_ok uci_err_notfound uci_err_other : UciStatus

-- The fields of a request's `struct blob_buf`, in the order in which they were added.
pub data Field : Type 0 where
  text : String → String → Field
  number : String → ℕ → Field

-- What a call did, with its arguments and the answer that it got. A `syslog` keeps its priority
-- and its format.
pub data Event : Type 0 where
  openlog : String → Event
  closelog : Event
  setlogmask : ℕ → Event
  syslog : ℕ → String → Event
  sigaction : Signal → Event
  sleep : ℕ → Event
  malloc : ℕ → Event
  free : ℕ → Event
  mqtt_init mqtt_connect mqtt_loop mqtt_disconnect mqtt_deinit : ℤ → Event
  mqtt_connected : Bool → Event
  property_report : CharPtr → ℤ → Event
  property_report_with_ack : Bytes → ℤ → Event
  json_parse json_delete : Event
  uci_alloc_context : Bool → Event
  uci_free_context : Event
  uci_lookup_ptr : String → UciStatus → Event
  ubus_connect : ℕ → Event
  ubus_free : ℕ → Event
  ubus_lookup_id : String → ℤ → Event
  ubus_invoke : ℕ → String → List Field → ℤ → Event
  blobmsg_add : Field → Bool → Event
  fork setsid open_null : ℤ → Event
  umask : ℕ → Event
  chdir : String → Event
  closefrom : ℕ → Event
  dup : ℕ → ℤ → Event
  time localtime : Bool → Event
  strftime : ℕ → String → Event
  perror puts : String → Event

-- Newest first.
abbrev pub History : Type 0
History = List Event

pub record Sys : Type 0 where
  pub history : History
  -- `volatile sig_atomic_t keep_running`, and the handlers that `sigaction` has installed.
  pub keep_running : ℕ
  pub handlers : Signal → Option SignalHandler
  pub context : Context
  -- The addresses of the live heap blocks, and the next address.
  pub blocks : List ℕ
  pub fresh : ℕ
  -- The two globals of tuya_daemon/connection.c. The OpenWrt daemon has no such globals.
  pub date_time_format : CharPtr
  pub date_time_format_should_free : Bool
