-- ===== src/Openwrt/Walks/Moments.antt =====
-- The runs of the OpenWrt daemon as steps: main.c, with the moments of the run in which the MQTT
-- library has handed over the messages that ask for requests.
pub mod Daemon
use tuya_daemon.Base.{
  Bool, ℕ, zero, suc, ◌≡◌, refl, not, ◌&&◌, ℤ, is_zero, ◌==◌, if◌then◌else◌, true, false, Option,
  none, some, List, [], String, Memᴰ, ◌⊎◌, inl, inr, ◌+◌,
}
use tuya_daemon.World.{
  Bytes, CharPtr, Field, Event, History, Message, Callback, message, Env, Sys, Outcome, Cmd, done,
  exited, fault, unfinished, and_then, pure, skip, sigint, sigterm, tell, call, syslog, ◌>>◌,
  strdup, free,
}
use tuya_daemon.World.Steps
use tuya_daemon.World.Steps.{
  Walk, Reach, Reach-trans, final, pure-Walk, unfinished-Walk, tell-Walk, call-Walk, strdup-Walk,
  free-Walk, sigaction-Walk,
}
use tuya_daemon.World.Steps.Invariants.{Adds, Adds-trans, Reach-Adds}
use tuya_daemon.World.Protocol.{Driving}
use tuya_daemon.Openwrt.Args.{str_to_digit, uci_get_option}
use tuya_daemon.Openwrt.Signals.{signal_handler}
use tuya_daemon.Openwrt.Connection.{
  tuya_mqtt_loop, tuya_mqtt_disconnect, wait_connected, connect_to_tuya, retry_connect,
}
use tuya_daemon.Openwrt.Main.{
  main_loop_from, main_loop, serve, run_mqtt, configured, run_daemon, main, valid_level,
  all_options,
}
use tuya_daemon.Openwrt.Walks.{Ordinary, told, called, logged, uci_get_option-Walk}
use tuya_daemon.Openwrt.Walks.Senders.{send_memory_info-Walk}
use tuya_daemon.Openwrt.Walks.Wanted.{wanted}
use tuya_daemon.Openwrt.Walks.Wanted.Asks.{Asks, wanted-Asks}
use tuya_daemon.Openwrt.Walks.Callbacks.{stops, callbacks-Walk, loop-Walk, disconnect-Walk}
use tuya_daemon.Openwrt.Walks.Daemon.{connections-Walk, retry-Walk, uci_free-Walk}

-- The library hands over the message in the callbacks of a call that starts after the history `h`.
abbrev pub HandsOver : Env → History → Message → Type 0
HandsOver env h msg =
    Memᴰ (message msg) (env.loop_callbacks h) ⊎ Memᴰ (message msg) (env.disconnect_callbacks h)

-- What the daemon may do, if `Seen` are the moments in which messages are handed over.
pub data Backed (env : Env) (Seen : History → Type 0) : Event → Type 0 where
  ordinary : (e : Event) → Ordinary e → Backed env Seen e
  driving : (e : Event) → Driving e → Backed env Seen e
  reports : (p : CharPtr) (ret : ℤ) → Backed env Seen (Event.property_report p ret)
  info : (id : ℕ) (ret : ℤ) → Backed env Seen (Event.ubus_invoke id "info" [] ret)
  asked :
      (id : ℕ) (method : String) (fields : List Field) (ret : ℤ) (msg : Message)
      → (h : History) × Seen h × HandsOver env h msg
      → wanted env msg ≡ some (method, fields)
      → Backed env Seen (Event.ubus_invoke id method fields ret)

-- The moment `h` lies between two others.
abbrev pub Between : History → History → History → Type 0
Between first last h = Adds (λ _. Unit) first h × Adds (λ _. Unit) h last

pub past :
    {env : Env} {Allowed : Event → Type 0} {s t : Sys}
    → Reach env Allowed s t
    → Adds (λ _. Unit) s.history t.history
past path = Reach-Adds (λ _ _. tt) (λ _. tt) (λ _. tt) path

-- A run whose messages are handed over at moments of the run.
pub record Run (env : Env) {A : Type 0} (s : Sys) (r : Outcome A) : Type 1 where
  pub walk :
      (Seen : History → Type 0)
      → ((h : History) → Between s.history (final r).history h → Seen h)
      → Walk env (Backed env Seen) Unit s r

module _ {env : Env} {A : Type 0} {s : Sys} where
  pub of_Walk :
      {r : Outcome A}
      → ((Seen : History → Type 0) → Walk env (Backed env Seen) Unit s r)
      → Run env s r
  of_Walk walk = record { walk = λ Seen _. walk Seen }

  pub bind :
      {B : Type 0} {r : Outcome A} {f : A → Cmd B}
      → Run env s r
      → ((a : A) (u : Sys) → Run env u (f a u))
      → Run env s (and_then r f)
  bind {r = done a u} part rest = record {
    walk = λ Seen seen.
        let later = past ((rest a u).walk (λ _. Unit) (λ _ _. tt)).reach in
        let earlier = past (part.walk (λ _. Unit) (λ _ _. tt)).reach in
        let first = part.walk Seen λ h (from, to). seen h (from, Adds-trans to later) in
        let second = (rest a u).walk Seen λ h (from, to). seen h (Adds-trans earlier from, to) in
        record { reach = Reach-trans first.reach second.reach; ending = second.ending };
  }
  bind {r = exited n u} part rest = record {
    walk =
        λ Seen seen. let w = part.walk Seen seen in record { reach = w.reach; ending = w.ending };
  }
  bind {r = fault x u} part rest = record {
    walk =
        λ Seen seen. let w = part.walk Seen seen in record { reach = w.reach; ending = w.ending };
  }
  bind {r = unfinished u} part rest = record {
    walk =
        λ Seen seen. let w = part.walk Seen seen in record { reach = w.reach; ending = w.ending };
  }

  pub if-Run :
      (b : Bool) (m m' : Cmd A)
      → Run env s (m s)
      → Run env s (m' s)
      → Run env s ((if b then m else m') s)
  if-Run true m m' taken skipped = taken
  if-Run false m m' skipped taken = taken

module _ {env : Env} where
  pub loop-Run : {s : Sys} → Run env s (tuya_mqtt_loop env s)
  unfolding tuya_mqtt_loop
  loop-Run {s} = record {
    walk = λ Seen seen.
        let whole = past (loop-Walk {env = env} {Loops = Unit} {s = s}).reach in
        Steps.bind
          (callbacks-Walk ordinary reports info asked (env.loop_callbacks s.history) s
            λ msg m. (s.history, seen s.history (Adds.nothing, whole), inl m))
          λ _ u. call-Walk _ _ (λ _. driving _ tt);
  }

  pub disconnect-Run : {s : Sys} → Run env s (tuya_mqtt_disconnect env s)
  unfolding tuya_mqtt_disconnect
  disconnect-Run {s} = record {
    walk = λ Seen seen.
        let whole = past (disconnect-Walk {env = env} {Loops = Unit} {s = s}).reach in
        Steps.bind
          (callbacks-Walk ordinary reports info asked (env.disconnect_callbacks s.history) s
            λ msg m. (s.history, seen s.history (Adds.nothing, whole), inr m))
          λ _ u. call-Walk _ _ (λ _. driving _ tt);
  }

module _ {env : Env} where
  pub quietly : {A : Type 0} {s : Sys} {a : A} → Run env s (done a s)
  quietly = of_Walk λ _. pure-Walk

  pub line : {s : Sys} (e : Event) → Ordinary e → Run env s (tell env e s)
  line e h = of_Walk λ _. told ordinary e h

  pub lines :
      {A : Type 0} {s : Sys} (p : ℕ) (t : String) (a : A) → Run env s ((syslog env p t >> pure a) s)
  lines p t a = of_Walk λ _. logged ordinary p t a

  pub drive : {s : Sys} (e : Event) → Driving e → Run env s (tell env e s)
  drive e h = of_Walk λ _. tell-Walk e (driving e h)

  pub drives :
      {A : Type 0} {s : Sys} (answer : History → A) (event : A → Event)
      → ((a : A) → Driving (event a))
      → Run env s (call env answer event s)
  drives answer event h = of_Walk λ _. call-Walk answer event (λ a. driving _ (h a))

  pub copies : {s : Sys} (t : String) → Run env s (strdup env t s)
  copies t = of_Walk λ _. strdup-Walk t

  pub frees : {s : Sys} (p : CharPtr) → Run env s (free env p s)
  frees p = of_Walk λ _. free-Walk p

  pub asks :
      {A : Type 0} {s : Sys} (answer : History → A) (event : A → Event)
      → ((a : A) → Ordinary (event a))
      → Run env s (call env answer event s)
  asks answer event h = of_Walk λ _. called ordinary answer event h

  pub reads : {s : Sys} (p : CharPtr) (name : String) → Run env s (uci_get_option env p name s)
  reads p name = of_Walk λ _. uci_get_option-Walk ordinary p name

  pub option-Run :
      {A B : Type 0} {s : Sys} (o : Option A) (n : Cmd B) (f : A → Cmd B)
      → Run env s (n s)
      → ((a : A) → Run env s (f a s))
      → Run env s ((elim o as (λ _. Cmd B) [ none ↦ n | some a ↦ f a ]) s)
  option-Run none n f absent present = absent
  option-Run (some a) n f absent present = present a
