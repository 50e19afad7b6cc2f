-- ===== src/Samples/Pc.antt =====
-- The environments and states of the samples for the daemon of the PC.
use tuya_daemon.Base.{refl, true, false, none, some, [], ◌∷◌, arith, ltb, Bool-cases, inl, inr}
use tuya_daemon.Thing.{property_set}
use tuya_daemon.World.{Sys, Message, block, literal}
use tuya_daemon.Host.Args.{Args}
use tuya_daemon.Host.Connection.Report.{Clock}
use tuya_daemon.Host.Connection.Format.{ValidJson, dynamic}
use tuya_daemon.Host.Main
use tuya_daemon.Host.Main.Serving.{Serving}
use tuya_daemon.World.Logic.{Quits, view, lifecycle, At-view}
use tuya_daemon.Host.Main.{ArgpParse}
use tuya_daemon.Samples.{calm}

-- The daemon of the PC with a format that the cloud has set, at the address 4.
abbrev pub formatted : Sys
formatted = record {
  history = [];
  keep_running = 1;
  handlers = λ _. none;
  context = record { config = none; user_data = 0 };
  blocks = 4 ∷ 9 ∷ [];
  fresh = 10;
  date_time_format = block 4 "%H";
  date_time_format_should_free = true;
}

-- The cloud sets the format of the time.
abbrev pub new_format : Message
new_format = record {
  type = property_set;
  msgid = "45lkj3551234002";
  code = 0;
  data_string = "{\"date_time_format\":\"%H:%M\"}";
}

-- The arguments that a complete command line leaves.
abbrev pub given : Args
given = record {
  device_id = some (b'i' ∷ []);
  device_secret = some (b's' ∷ []);
  product_id = some (b'p' ∷ []);
  become_daemon = false;
}

pub calm-Clock : Clock calm
calm-Clock = record {
  fits = λ h n format room. elim (Bool-cases (ltb 2 n)) [
    | inl e ↦ rw e (ground arith)
    | inr e ↦ rw e room
  ];
  no_nul = λ h n format. elim (Bool-cases (ltb 2 n)) [
    | inl e ↦ rw e (refl, (refl, tt))
    | inr e ↦ rw e tt
  ];
}

pub calm-ValidJson : ValidJson calm
calm-ValidJson = record { parses = λ text. (1, refl); named = λ j. ("date_time_format", refl) }

-- The daemon of the PC at its start, with a block at the address 9 that others own.
abbrev pub starting : Sys
starting = record formatted {
  blocks = 9 ∷ [];
  date_time_format = literal "%F %T%z";
  date_time_format_should_free = false;
}

-- The daemon of the PC after `init_tuya`.
abbrev pub initialised : Sys
initialised = record formatted {
  context = record {
    config = some (Main.mqtt_config (some (b'i' ∷ [])) (some (b's' ∷ [])));
    user_data = 0;
  };
}

pub formatted-Quits : Quits formatted.handlers
formatted-Quits g f e m n stop = cc

pub initialised-Serving : Serving (9 ∷ []) [] initialised
unfolding lifecycle
initialised-Serving = record {
  v = view initialised;
  at = At-view initialised;
  own = dynamic 4 "%H";
  config = ((some (b'i' ∷ []), some (b's' ∷ [])), refl);
  traced = refl;
  quits = formatted-Quits;
}
