-- ===== src/Openwrt/Hazards/Inputs.antt =====
-- openwrt/tuya_daemon/src/connection.c: what a message, and a connection that was never complete,
-- can do to the OpenWrt daemon.
use tuya_daemon.Base.{
  ℕ, ◌≡◌, refl, true, false, some, [], ◌∷◌, String, negsuc, strcmp_eq, is_zero, minus_two, ◌∙◌,
}
use tuya_daemon.World.{
  Bytes, Context, History, Sys, Json, Message, Env, bad_cast, null_deref, disconnected, touch,
}
use tuya_daemon.World.Logic
use tuya_daemon.World.Logic.{Returns, ends, call-Marks, At-view, tell-Keeps, malloc-Keeps}
use tuya_daemon.World.Faults.{Faults, faults, after, through}
use tuya_daemon.Openwrt.Ubus.{ubus_connect, ubus_free}
use tuya_daemon.Openwrt.Connection.{
  mqtt_config, is_action_execute, requested_action, action_arguments, to_uint32, device_action,
  run_action, execute_action, on_messages, on_disconnect, run_handler, run_callback, run_callbacks,
  tuya_mqtt_disconnect, tuya_mqtt_init, init_connections,
}
use tuya_daemon.Openwrt.Main.{run_mqtt}

module _ (env : Env) (ctx : ℕ) (msg : Message) (json : Json) (name device : String) (pin : Json)
    (n : ℕ) where
  device_action_negative :
      (t : Sys)
      → env.valuedouble pin ≡ some (negsuc n)
      → Faults bad_cast (device_action env ctx name device pin t)
  unfolding device_action to_uint32
  device_action_negative t negative = rw negative faults

  run_action_negative :
      (t : Sys)
      → requested_action env (some json) ≡ some name
      → strcmp_eq name "list_devices" ≡ false
      → action_arguments env (some json) ≡ some (device, pin)
      → env.valuedouble pin ≡ some (negsuc n)
      → Faults bad_cast (run_action env ctx (some json) t)
  unfolding run_action
  run_action_negative t named other args negative =
      rw (run_action, named, other, args) (device_action_negative t negative)

  -- If a message is an ACTION_EXECUTE whose text parses and has an action name other than
  -- list_devices and all arguments, and the integral part of the pin is negative, then
  -- `on_messages` runs into an undefined cast, in every state and even if the action is not known.
  pub on_messages_negative_pin :
      (t : Sys)
      → is_action_execute msg.type ≡ true
      → env.cjson_parse msg.data_string ≡ some json
      → requested_action env (some json) ≡ some name
      → strcmp_eq name "list_devices" ≡ false
      → action_arguments env (some json) ≡ some (device, pin)
      → env.valuedouble pin ≡ some (negsuc n)
      → Faults bad_cast (on_messages env ctx msg t)
  unfolding on_messages execute_action
  on_messages_negative_pin t act parsed named other args negative =
      after (tell-Keeps env (At-view t) _ refl) λ _ u k. rw act (
        after (tell-Keeps env k _ refl) λ _ u1 k1. rw parsed (
          after (malloc-Keeps env k1)
            λ a u2 k2. through _ (run_action_negative u2 named other args negative)))

disconnect_without_ubus :
    (env : Env) (device_id device_secret : Bytes) (t : Sys)
    → t.context ≡ record { config = some (mqtt_config device_id device_secret); user_data = 0 }
    → env.disconnect_callbacks t.history ≡ disconnected ∷ []
    → Faults null_deref (tuya_mqtt_disconnect env t)
unfolding tuya_mqtt_disconnect run_callbacks run_callback run_handler on_disconnect ubus_free touch
disconnect_without_ubus env device_id device_secret t e lost = rw (lost, e) faults

module _ (env : Env) (device_id device_secret : Bytes) where
  abbrev unlinked : Context
  unlinked = record { config = some (mqtt_config device_id device_secret); user_data = 0 }

  tuya_mqtt_init-Unlinked :
      (t : Sys)
      → ((h : History) → is_zero (env.tuya_mqtt_init h) ≡ true)
      → Returns
          (λ r u. (is_zero r ≡ true) × (u.context ≡ unlinked))
          (tuya_mqtt_init env (mqtt_config device_id device_secret) t)
  unfolding tuya_mqtt_init
  tuya_mqtt_init-Unlinked t init =
      Logic.bind (call-Marks env (At-view t) env.tuya_mqtt_init _ (λ _. refl)) λ ret u (k, e).
        let ok : is_zero ret ≡ true = rw e (init t.history) in rw ok (ends (ok, refl))

  ubus_connect-Null :
      (t : Sys)
      → ((h : History) → env.ubus_connect h ≡ false)
      → Returns (λ a u. (a ≡ 0) × (u.context ≡ t.context)) (ubus_connect env t)
  unfolding ubus_connect
  ubus_connect-Null t nothing =
      rw (nothing t.history)
        (Logic.bind (tell-Keeps env (At-view t) _ refl) λ _ u k. ends (refl, k.context))

  init_connections-Unlinked :
      (t : Sys)
      → ((h : History) → is_zero (env.tuya_mqtt_init h) ≡ true)
      → ((h : History) → env.ubus_connect h ≡ false)
      → Returns
          (λ r u. (r ≡ (minus_two, 0)) × (u.context ≡ unlinked))
          (init_connections env device_id device_secret t)
  unfolding init_connections
  init_connections-Unlinked t init nothing =
      Logic.bind (tuya_mqtt_init-Unlinked t init) λ ret u (ok, e). rw ok (
        Logic.bind (ubus_connect-Null u nothing) λ a u1 (null, e1). rw null (
          Logic.bind (tell-Keeps env (At-view u1) _ refl)
            λ _ u2 k2. ends (refl, k2.context ∙ (e1 ∙ e))))

  -- If the MQTT library can be initialised, ubus cannot be reached, and the library reports the end
  -- of a connection when it is disconnected, then `main`, from `init_connections` on, comes to its
  -- clean-up with a NULL connection and gives it to `ubus_free`, in every state and with every
  -- fuel.
  pub run_mqtt_without_ubus :
      (fuel : ℕ) (t : Sys)
      → ((h : History) → is_zero (env.tuya_mqtt_init h) ≡ true)
      → ((h : History) → env.ubus_connect h ≡ false)
      → ((h : History) → env.disconnect_callbacks h ≡ disconnected ∷ [])
      → Faults null_deref (run_mqtt env fuel device_id device_secret t)
  unfolding run_mqtt
  run_mqtt_without_ubus fuel t init nothing lost =
      after (init_connections-Unlinked t init nothing) λ r u (e, c).
        rw e (through _ (disconnect_without_ubus env device_id device_secret u c (lost u.history)))
