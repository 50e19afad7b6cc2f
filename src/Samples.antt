-- ===== src/Samples.antt =====
-- The environments and states at which the theorems are tried: a day on which every service
-- answers, and the days on which one of them does not.
pub mod Pc
pub mod Endings
use tuya_daemon.Base.{
  ℕ, ◌≡◌, refl, true, false, Option, none, some, [], ◌∷◌, pos, minus_one, ap, arith, ltb,
  if◌then◌else◌, Bool-cases, inl, inr, ◌==◌, length,
}
use tuya_daemon.Thing.{action_execute, property_set}
use tuya_daemon.World.{
  null, uci_ok, Sys, Message, disconnected, message, Env, SignalHandler, block, literal, sigterm,
}
use tuya_daemon.Host.Args.{Args, argp_ok}
use tuya_daemon.Host.Connection.Report.{Clock}
use tuya_daemon.Host.Connection.Format.{ValidJson, dynamic}
use tuya_daemon.Host.Main
use tuya_daemon.Host.Main.Serving.{Serving}
use tuya_daemon.World.Logic.{Quits, view, lifecycle, At-view}
use tuya_daemon.Openwrt.Signals.{signal_handler}
use tuya_daemon.Openwrt.SendInfo.Replies.{IsLive}
use tuya_daemon.Openwrt.Connection.{mqtt_config}
use tuya_daemon.Openwrt.Connection.Memory.{IsUint32, Services, IsServing}
use tuya_daemon.Openwrt.Connection.Retries.{StaysUp}
use tuya_daemon.World.Steps.Invariants.{Arrives}
use tuya_daemon.Host.Main.{ArgpParse}
use tuya_daemon.World.Trace.{attempts}
use tuya_daemon.Openwrt.Main.Closing.{Farewell}

abbrev pub action : Message
action = record {
  type = action_execute;
  msgid = "45lkj3551234001";
  code = 0;
  data_string = "{\"actionCode\":\"turn_on_pin\",\"inputParams\":{\"device\":\"esp\",\"pin\":5}}";
}

-- Every call succeeds, and the cloud asks for a pin to be turned on.
abbrev pub calm : Env
calm = record {
  signal = λ _. none;
  tuya_mqtt_init = λ _. pos 0;
  tuya_mqtt_connect = λ _. pos 0;
  tuya_mqtt_connected = λ _. true;
  loop_callbacks = λ _. message action ∷ [];
  tuya_mqtt_loop = λ _. pos 0;
  disconnect_callbacks = λ _. [];
  tuya_mqtt_disconnect = λ _. pos 0;
  tuya_mqtt_deinit = λ _. pos 0;
  property_report = λ _. pos 1;
  property_report_with_ack = λ _. pos 1;
  cjson_parse = λ _. some 1;
  cjson_get_object_item = λ json _. json;
  cjson_get_string_value = λ _. some "turn_on_pin";
  cjson_is_number = λ _. true;
  valuedouble = λ _. some (pos 5);
  child = λ json. some json;
  json_name = λ _. some "date_time_format";
  valuestring = λ _. some "%H:%M";
  uci_alloc_context = λ _. true;
  uci_lookup_ptr = λ _ _. uci_ok;
  uci_ptr = λ _ _. record { complete = true; is_string = true; value = b'7' ∷ [] };
  ubus_connect = λ _. true;
  ubus_lookup_id = λ _. pos 0;
  ubus_id = λ _. 3;
  ubus_replies = λ _. 7 ∷ [];
  ubus_invoke = λ _. pos 0;
  blobmsg_add = λ _. true;
  blob_data = λ blob. blob;
  blobmsg_data = λ blob. blob;
  blobmsg_parse = λ _ _. pos 0;
  blobmsg_table = λ _ _ i. some i;
  blobmsg_format_json = λ _. some "{}";
  fork = λ _. pos 0;
  setsid = λ _. pos 1;
  open_null = λ _. pos 0;
  dup = λ _. pos 1;
  time = λ _. true;
  localtime = λ _. true;
  strftime = λ _ n _. if ltb 2 n then b'1' ∷ b'2' ∷ [] else [];
}

-- The connection is lost, with no failure of the loop.
abbrev pub lossy : Env
lossy = record calm { loop_callbacks = λ _. disconnected ∷ [] }

-- The cloud cannot be reached.
abbrev pub unreachable : Env
unreachable = record calm { tuya_mqtt_connect = λ _. minus_one }

-- No report arrives, and no message either.
abbrev pub mute : Env
mute = record calm { loop_callbacks = λ _. []; property_report = λ _. minus_one }

-- A request has no room for its fields.
abbrev pub full : Env
full = record calm { blobmsg_add = λ _. false }

-- A request succeeds without an answer.
abbrev pub silent : Env
silent = record calm { ubus_replies = λ _. [] }

-- The OpenWrt daemon after `init_connections`, with its ubus connection at the address 1.
abbrev pub serving : Sys
serving = record {
  history = [];
  keep_running = 1;
  handlers = λ _. some signal_handler;
  context = record { config = some (mqtt_config (b'i' ∷ []) (b's' ∷ [])); user_data = 1 };
  blocks = 1 ∷ [];
  fresh = 2;
  date_time_format = null;
  date_time_format_should_free = false;
}

pub calm-Services : Services calm
calm-Services = record {
  replies = record { answered = λ h e. (7, refl); unanswered = λ h e. absurd (cc) };
  fits = λ h. refl;
  numbers = λ j. IsUint32.in_range 5 refl;
}

pub unreachable-Services : Services unreachable
unreachable-Services = record {
  replies = record { answered = λ h e. (7, refl); unanswered = λ h e. absurd (cc) };
  fits = λ h. refl;
  numbers = λ j. IsUint32.in_range 5 refl;
}

pub mute-Services : Services mute
mute-Services = record {
  replies = record { answered = λ h e. (7, refl); unanswered = λ h e. absurd (cc) };
  fits = λ h. refl;
  numbers = λ j. IsUint32.in_range 5 refl;
}

pub calm-StaysUp : StaysUp calm
calm-StaysUp h = tt

pub unreachable-StaysUp : StaysUp unreachable
unreachable-StaysUp h = tt

pub mute-StaysUp : StaysUp mute
mute-StaysUp h = tt

pub serving-IsLive : IsLive 1 serving.blocks
serving-IsLive = record { ne_null = refl; live = refl }

pub serving-IsServing : IsServing 1 (view serving)
serving-IsServing = record {
  live = serving-IsLive;
  config = ((b'i' ∷ [], b's' ∷ []), refl);
  user_data = refl;
}

pub serving-Quits : Quits serving.handlers
serving-Quits g f e m n stop = let none_running : 0 ≡ f m n = ap answer e in ground arith
  where
    answer : Option SignalHandler → ℕ
    answer none = 0
    answer (some k) = k m n
