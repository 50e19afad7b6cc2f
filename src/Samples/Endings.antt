-- ===== src/Samples/Endings.antt =====
-- The days on which a signal ends the daemons, and those on which an input makes them fail.
use tuya_daemon.Base.{
  ◌≡◌, refl, none, some, [], ◌∷◌, minus_one, if◌then◌else◌, Bool-cases, inl, inr, ◌==◌, length,
  String, Option, true, false,
}
use tuya_daemon.World.{Bytes, disconnected, Env, sigterm}
use tuya_daemon.Host.Args.{argp_ok}
use tuya_daemon.Host.Connection.Report.{Clock}
use tuya_daemon.Host.Connection.Format.{ValidJson}
use tuya_daemon.World.Logic.{lifecycle}
use tuya_daemon.Openwrt.Connection.Memory.{IsUint32, Services}
use tuya_daemon.Openwrt.Connection.Retries.{StaysUp}
use tuya_daemon.World.Steps.Invariants.{Arrives}
use tuya_daemon.Host.Main.{ArgpParse, argp_returns}
use tuya_daemon.World.Trace.{attempts}
use tuya_daemon.Openwrt.Main.Closing.{Farewell}
use tuya_daemon.Openwrt.Main.Decided.{Settings}
use tuya_daemon.Samples.{calm}
use tuya_daemon.Samples.Pc.{given, calm-Clock, calm-ValidJson, starting}

-- The calm day, until SIGTERM arrives at the end of the thirtieth call.
abbrev pub signalled : Env
signalled = record calm { signal = λ h. if length h == 30 then some sigterm else none }

pub signalled-Arrives : Arrives signalled sigterm 30
signalled-Arrives = record { arrives = λ h now. rw now refl }

-- A command line that argp accepts.
abbrev pub parsing : ArgpParse
parsing parser arguments = argp_returns argp_ok given

-- The same, with the option that asks for a background process.
abbrev pub asking : ArgpParse
asking parser arguments = argp_returns argp_ok (record given { become_daemon = true })

-- UCI has the same text for every option.
abbrev pub sevens : String → Option Bytes
sevens _ = some (b'7' ∷ [])

pub calm-Settings : Settings calm sevens
calm-Settings = record { alloc = λ h. refl; value = λ h name. refl }

-- The day of the signal, with a library that reports the end of a connection that it was asked for.
abbrev pub parting : Env
parting = record signalled {
  disconnect_callbacks = λ h. if attempts (lifecycle h) == 0 then [] else disconnected ∷ [];
}

pub parting-Arrives : Arrives parting sigterm 30
parting-Arrives = record { arrives = λ h now. rw now refl }

pub parting-Farewell : Farewell parting
parting-Farewell = record {
  quiet = λ h unused. rw unused refl;
  once = λ h. elim (Bool-cases (attempts (lifecycle h) == 0)) [
    | inl unused ↦ inl (rw unused refl)
    | inr used ↦ inr (rw used refl)
  ];
}

pub parting-Services : Services parting
parting-Services = record {
  replies = record { answered = λ h e. (7, refl); unanswered = λ h e. absurd (cc) };
  fits = λ h. refl;
  numbers = λ j. IsUint32.in_range 5 refl;
}

pub parting-StaysUp : StaysUp parting
parting-StaysUp h = tt

pub signalled-Clock : Clock signalled
signalled-Clock = record { fits = calm-Clock.fits; no_nul = calm-Clock.no_nul }

pub signalled-ValidJson : ValidJson signalled
signalled-ValidJson = record { parses = calm-ValidJson.parses; named = calm-ValidJson.named }

pub starting-unused : attempts (lifecycle starting.history) ≡ 0
unfolding attempts lifecycle
starting-unused = refl

-- The cloud asks for the pin -1.
abbrev pub negative : Env
negative = record calm { valuedouble = λ _. some minus_one }

-- The daemon has no ubus connection, and the library reports the end of its connection.
abbrev pub leaving : Env
leaving = record calm { ubus_connect = λ _. false; disconnect_callbacks = λ _. disconnected ∷ [] }

-- The elements of an array have no names.
abbrev pub nameless : Env
nameless = record calm { json_name = λ _. none }
