-- ===== src/World/Logic/Views.antt =====
-- What a piece of code sees of a state, and what of a history belongs to a daemon's life.
use tuya_daemon.Base.{
  not, ◌&&◌, is_negative, ℕ, ◌≡◌, refl, Bool, true, List, ◌∷◌, String, member, false, strcmp_eq,
  ◌||◌, if◌then◌else◌, [], Option, some, ◌≢◌,
}
use tuya_daemon.World.State.{
  CharPtr, unset, null, literal, block, Context, Event, History, Sys, Signal, SignalHandler,
}

-- A `char *` that may be passed to a library.
abbrev pub IsReadable : List ℕ → CharPtr → Type 0
IsReadable bs unset = ⊥
IsReadable bs null = Unit
IsReadable bs (literal t) = Unit
IsReadable bs (block a t) = member a bs ≡ true

-- The log lines of the two main loops for a report that could not be sent.
abbrev pub is_retry_notice : String → Bool
is_retry_notice format =
    strcmp_eq format "Error sending information, retrying in 10 seconds"
    || strcmp_eq format "Error sending current time, retrying in 10 seconds"

-- The events that make up the life of a daemon: the calls that drive its connection, its sleeps,
-- and the notices of failed reports of its main loop.
abbrev pub is_lifecycle : Event → Bool
is_lifecycle (Event.sleep _) = true
is_lifecycle (Event.mqtt_init _) = true
is_lifecycle (Event.mqtt_connect _) = true
is_lifecycle (Event.mqtt_loop _) = true
is_lifecycle (Event.mqtt_disconnect _) = true
is_lifecycle (Event.mqtt_deinit _) = true
is_lifecycle (Event.mqtt_connected _) = true
is_lifecycle (Event.syslog _ format) = is_retry_notice format
is_lifecycle _ = false

-- A report that the library has accepted.
abbrev pub is_accepted : Event → Bool
is_accepted (Event.property_report p ret) = not (is_negative ret)
is_accepted (Event.property_report_with_ack t ret) = not (is_negative ret)
is_accepted _ = false

-- Since the newest sleep no report has been accepted.
unfoldable pub unsent : History → Bool
unsent [] = true
unsent (Event.sleep n ∷ h) = true
unsent (e ∷ h) = not (is_accepted e) && unsent h

-- A notice that a report has failed counts only if it is true.
abbrev pub is_true : Event → History → Bool
is_true (Event.syslog p format) h = unsent h
is_true _ h = true

unfoldable pub lifecycle : History → List Event
lifecycle [] = []
lifecycle (e ∷ h) = if is_lifecycle e && is_true e h then e ∷ lifecycle h else lifecycle h

-- The calls that drive the connection, and the sleeps.
abbrev pub is_mark : Event → Bool
is_mark (Event.syslog _ _) = false
is_mark e = is_lifecycle e

-- What the code owns, and what its callers see of it: all of a state that the calls into the
-- environment do not change. The trace is the lifecycle part of the history.
pub record View : Type 0 where
  pub blocks : List ℕ
  pub context : Context
  pub date_time_format : CharPtr
  pub date_time_format_should_free : Bool
  pub handlers : Signal → Option SignalHandler
  pub trace : List Event

abbrev pub with_blocks : List ℕ → View → View
with_blocks bs v = record v { blocks = bs }

-- Every handler that is installed makes the main loops stop.
abbrev pub Quits : (Signal → Option SignalHandler) → Type 0
Quits handlers = (g : Signal) (f : SignalHandler) → handlers g ≡ some f → (m n : ℕ) → f m n ≢ 1

-- The view after one more lifecycle event.
abbrev pub marked : Event → View → View
marked e v = record v { trace = e ∷ v.trace }

pub record At (v : View) (t : Sys) : Type 0 where
  pub blocks : t.blocks ≡ v.blocks
  pub context : t.context ≡ v.context
  pub date_time_format : t.date_time_format ≡ v.date_time_format
  pub date_time_format_should_free : t.date_time_format_should_free ≡ v.date_time_format_should_free
  pub handlers : t.handlers ≡ v.handlers
  pub trace : lifecycle t.history ≡ v.trace

abbrev pub view : Sys → View
view s = record {
  blocks = s.blocks;
  context = s.context;
  date_time_format = s.date_time_format;
  date_time_format_should_free = s.date_time_format_should_free;
  handlers = s.handlers;
  trace = lifecycle s.history;
}

pub At-view : (s : Sys) → At (view s) s
At-view s = record {
  blocks = refl;
  context = refl;
  date_time_format = refl;
  date_time_format_should_free = refl;
  handlers = refl;
  trace = refl;
}
