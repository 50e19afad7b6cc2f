-- ===== src/Openwrt/Walks/Callbacks.antt =====
-- The runs of the OpenWrt daemon as steps: the callbacks of the MQTT library in connection.c.
use tuya_daemon.Base.{
  ℕ, ◌≡◌, ◌≢◌, arith, refl, sym, Option, none, some, List, [], ◌∷◌, String, ℤ, Memᴰ,
}
use tuya_daemon.World.{
  Config, Handler, on_connected_handler, on_disconnect_handler, on_messages_handler, CharPtr, Field,
  Event, Callback, connected, disconnected, message, Message, Env, History, Sys,
}
use tuya_daemon.World.Steps.{Walk, map-Walk, pure-Walk, fault-Walk, bind, call-Walk}
use tuya_daemon.Openwrt.Connection.{
  on_connected, on_disconnect, run_handler, run_callback, run_callbacks, handler_of, tuya_mqtt_loop,
  tuya_mqtt_disconnect,
}
use tuya_daemon.World.Protocol.{Driving}
use tuya_daemon.Openwrt.Walks.{Ordinary, told, ubus_free-Walk}
use tuya_daemon.Openwrt.Walks.Senders.{send_memory_info-Walk}
use tuya_daemon.Openwrt.Walks.Wanted.{Only, Request, wanted, on_messages-Walk}
use tuya_daemon.Openwrt.Signals.{signal_handler}
use tuya_daemon.Openwrt.SendInfo.{send_memory_info}

-- A message that the library hands over at some moment.
pub data Delivers (env : Env) (msg : Message) : Type 0 where
  in_loop : (h : History) → Memᴰ (message msg) (env.loop_callbacks h) → Delivers env msg
  at_disconnect : (h : History) → Memᴰ (message msg) (env.disconnect_callbacks h) → Delivers env msg

-- What the daemon may do: of the requests to ubus services, the one for the memory, and those that
-- a message that was delivered asks for.
pub data Permitted (env : Env) : Event → Type 0 where
  ordinary : (e : Event) → Ordinary e → Permitted env e
  driving : (e : Event) → Driving e → Permitted env e
  reports : (p : CharPtr) (ret : ℤ) → Permitted env (Event.property_report p ret)
  info : (id : ℕ) (ret : ℤ) → Permitted env (Event.ubus_invoke id "info" [] ret)
  asked :
      (id : ℕ) (method : String) (fields : List Field) (ret : ℤ) (msg : Message)
      → Delivers env msg
      → wanted env msg ≡ some (method, fields)
      → Permitted env (Event.ubus_invoke id method fields ret)

pub stops : (m n : ℕ) → signal_handler m n ≢ 1
stops m n e = ground arith

module _ {Allowed : Event → Type 0} (base : (e : Event) → Ordinary e → Allowed e)
    (sent : (p : CharPtr) (ret : ℤ) → Allowed (Event.property_report p ret)) where
  weaken :
      (request : Option Request)
      → ((id : ℕ) (method : String) (fields : List Field) (ret : ℤ)
          → request ≡ some (method, fields)
          → Allowed (Event.ubus_invoke id method fields ret))
      → (e : Event) → Only request e
      → Allowed e
  weaken request asks _ (Only.ordinary e h) = base e h
  weaken request asks _ (Only.reports p ret) = sent p ret
  weaken request asks _ (Only.requests id m fs ret h) = asks id m fs ret h

-- The callbacks, where reports are allowed, the request for the memory, and what a message that was
-- delivered asks for.
module _ {env : Env} {Allowed : Event → Type 0} {Given : Message → Type 0}
    (base : (e : Event) → Ordinary e → Allowed e)
    (sent : (p : CharPtr) (ret : ℤ) → Allowed (Event.property_report p ret))
    (info : (id : ℕ) (ret : ℤ) → Allowed (Event.ubus_invoke id "info" [] ret))
    (asked : (id : ℕ) (method : String) (fields : List Field) (ret : ℤ) (msg : Message)
      → Given msg
      → wanted env msg ≡ some (method, fields)
      → Allowed (Event.ubus_invoke id method fields ret)) where
  module _ {Loops : Type 0} where
    handler-Walk :
        {s : Sys} (handler : Handler) (c : Callback) (user_data : ℕ)
        → ((msg : Message) → c ≡ message msg → Given msg)
        → Walk env (Allowed) Loops s (run_handler env handler c user_data s)
    unfolding run_handler on_connected on_disconnect
    handler-Walk on_connected_handler c user_data given =
        bind (told base _ tt)
          λ _ u. bind (send_memory_info-Walk base sent user_data info) λ _ v. pure-Walk
    handler-Walk on_disconnect_handler c user_data given =
        bind (ubus_free-Walk base user_data) λ _ u. told base _ tt
    handler-Walk on_messages_handler (message msg) user_data given =
        map-Walk
          (weaken base sent (wanted env msg)
            λ id m fs ret h. asked id m fs ret msg (given msg refl) h)
          (on_messages-Walk user_data msg)
    handler-Walk on_messages_handler connected user_data given = fault-Walk
    handler-Walk on_messages_handler disconnected user_data given = fault-Walk

    callback-Walk :
        {s : Sys} (o : Option Config) (user_data : ℕ) (c : Callback)
        → ((msg : Message) → c ≡ message msg → Given msg)
        → Walk env (Allowed) Loops s (run_callback env o user_data c s)
    unfolding run_callback
    callback-Walk none user_data c given = pure-Walk
    callback-Walk (some config) user_data c given =
        handler-Walk (handler_of config c) c user_data given

    pub callbacks-Walk :
        (cs : List Callback) (s : Sys)
        → ((msg : Message) → Memᴰ (message msg) cs → Given msg)
        → Walk env (Allowed) Loops s (run_callbacks env cs s)
    unfolding run_callbacks
    callbacks-Walk [] s given = pure-Walk
    callbacks-Walk (c ∷ cs) s given =
        bind (callback-Walk s.context.config _ c λ msg e. given msg (Memᴰ.head (sym e)))
          λ _ u. callbacks-Walk cs u λ msg m. given msg (Memᴰ.tail m)

module _ {env : Env} {Loops : Type 0} where
  pub memory-Walk : {s : Sys} (c : ℕ) → Walk env (Permitted env) Loops s (send_memory_info env c s)
  memory-Walk c = send_memory_info-Walk ordinary reports c info

  pub loop-Walk : {s : Sys} → Walk env (Permitted env) Loops s (tuya_mqtt_loop env s)
  unfolding tuya_mqtt_loop
  loop-Walk {s} =
      bind
        (callbacks-Walk ordinary reports info asked (env.loop_callbacks s.history) s
          λ msg. in_loop s.history)
        λ _ u. call-Walk _ _ (λ _. driving _ tt)

  pub disconnect-Walk : {s : Sys} → Walk env (Permitted env) Loops s (tuya_mqtt_disconnect env s)
  unfolding tuya_mqtt_disconnect
  disconnect-Walk {s} =
      bind
        (callbacks-Walk ordinary reports info asked (env.disconnect_callbacks s.history) s
          λ msg. at_disconnect s.history)
        λ _ u. call-Walk _ _ (λ _. driving _ tt)
