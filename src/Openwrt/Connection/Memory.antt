-- ===== src/Openwrt/Connection/Memory.antt =====
-- What the callbacks and the loops of connection.c own while the connection lasts.
use tuya_daemon.Base.{
  ℕ, ◌^◌, ◌≡◌, refl, ap, ◌∙◌, inl, inr, true, false, Option, none, some, List, [], ◌∷◌, String, ℤ,
  pos, Bool-cases, Option-cases, strcmp_eq, ltb,
}
use tuya_daemon.World.{
  Bytes, Config, Context, History, Sys, Json, Message, Callback, connected, disconnected, message,
  Env,
}
use tuya_daemon.World.Logic
use tuya_daemon.World.Logic.{
  Ends, Returns, ends, runs, View, with_blocks, At, Keeps, tell-Keeps, call-Keeps, malloc-Keeps,
  free_block-Keeps, of_Returns,
}
use tuya_daemon.Openwrt.SendInfo.Replies.{OneReply, IsLive}
use tuya_daemon.Openwrt.SendInfo.Requests.{IsLive-cons}
use tuya_daemon.Openwrt.SendInfo.Memory.{
  send_memory_info-Keeps, send_connected_devices_list-Keeps, control_device_pin-Keeps,
}
use tuya_daemon.Openwrt.Connection.{
  to_uint32, is_action_execute, on_connected, action_arguments, device_action, run_action,
  requested_action, execute_action, on_messages, run_handler, run_callback, run_callbacks,
  mqtt_config,
}

-- The integral part of a double, in the range of `uint32_t`.
pub data IsUint32 : Option ℤ → Type 0 where
  in_range : (n : ℕ) → ltb n (2 ^ 32) ≡ true → IsUint32 (some (pos n))

-- What the code relies on: ubus answers a request once, a request has room for two fields, and a
-- number that comes from the cloud fits an `uint32_t`.
pub record Services (env : Env) : Type 0 where
  pub replies : OneReply env
  pub fits : (h : History) → env.blobmsg_add h ≡ true
  pub numbers : (j : Json) → IsUint32 (env.valuedouble j)

module _ (env : Env) (services : Services env) {v : View} {t : Sys} (ctx : ℕ)
    (live : IsLive ctx v.blocks) (at : At v t) where
  on_connected-Keeps : Returns (Keeps v) (on_connected env ctx t)
  unfolding on_connected
  on_connected-Keeps =
      Logic.bind (tell-Keeps env at _ refl) λ _ u k.
        Logic.bind (send_memory_info-Keeps env services.replies ctx live k) λ _ w k'. ends k'

  device_action-Keeps :
      (action_name dev_name : String) (pin_json : Json)
      → Returns (Keeps v) (device_action env ctx action_name dev_name pin_json t)
  unfolding device_action
  device_action-Keeps action_name dev_name pin_json =
      Logic.bind (cast (env.valuedouble pin_json) (services.numbers pin_json)) λ pin u k.
        elim (Bool-cases (strcmp_eq action_name "turn_on_pin")) [
          | inl on ↦ rw on (
              Logic.bind
                (control_device_pin-Keeps env services.replies ctx live k true dev_name pin
                  services.fits)
                λ _ w k'. ends k')
          | inr not_on ↦ rw not_on (elim (Bool-cases (strcmp_eq action_name "turn_off_pin")) [
            | inl off ↦ rw off (
                Logic.bind
                  (control_device_pin-Keeps env services.replies ctx live k false dev_name pin
                    services.fits)
                  λ _ w k'. ends k')
            | inr other ↦ rw other (tell-Keeps env k _ refl)
          ])
        ]
    where
      cast : (o : Option ℤ) → IsUint32 o → Returns (Keeps v) (to_uint32 o t)
      cast _ (in_range n small) = unfold to_uint32 in rw small (ends at)

  run_action-Keeps : (full_data : Option Json) → Returns (Keeps v) (run_action env ctx full_data t)
  unfolding run_action
  run_action-Keeps full_data = elim (Option-cases (requested_action env full_data)) [
    | inl e ↦ rw (e, run_action) (tell-Keeps env at _ refl)
    | inr (action_name, e) ↦
        rw (e, run_action)
          (elim (Bool-cases (strcmp_eq action_name "list_devices")) [
            | inl l ↦ rw l (
                Logic.bind (send_connected_devices_list-Keeps env services.replies ctx live at)
                  λ _ u k. ends k)
            | inr d ↦ rw d (elim (Option-cases (action_arguments env full_data)) [
              | inl x ↦ rw x (tell-Keeps env at _ refl)
              | inr ((dev_name, pin_json), x) ↦
                  rw x (device_action-Keeps action_name dev_name pin_json)
            ])
          ])
  ]

module _ (env : Env) (services : Services env) {v : View} {t : Sys} (ctx : ℕ)
    (live : IsLive ctx v.blocks) (at : At v t) where
  execute_action-Keeps :
      (data_string : String) → Returns (Keeps v) (execute_action env data_string ctx t)
  unfolding execute_action
  execute_action-Keeps data_string = Logic.bind (tell-Keeps env at _ refl) λ _ u k.
      elim (Option-cases (env.cjson_parse data_string)) [
        | inl e ↦ rw e (
            Logic.bind (run_action-Keeps env services ctx live k none)
              λ _ w k'. tell-Keeps env k' _ refl)
        | inr (json, e) ↦ rw e (
            Logic.bind (malloc-Keeps env k) λ a u1 k1.
              Logic.bind (run_action-Keeps env services ctx (IsLive-cons live) k1 (some json))
                λ _ u2 k2.
                  Logic.bind (free_block-Keeps env k2 a v.blocks refl)
                    λ _ u3 k3. tell-Keeps env k3 _ refl)
      ]

module _ (env : Env) (services : Services env) {v : View} {t : Sys} (ctx : ℕ)
    (live : IsLive ctx v.blocks) (at : At v t) where
  -- If the ubus connection is live, ubus answers a successful request once and a failed one never,
  -- requests have room for their fields and numbers fit an `uint32_t`, then `on_messages` returns
  -- without undefined behaviour for every message, and the live blocks are those before the call:
  -- the JSON tree, the request and the answer are freed on every branch.
  pub on_messages-Keeps : (msg : Message) → Returns (Keeps v) (on_messages env ctx msg t)
  unfolding on_messages
  on_messages-Keeps msg = Logic.bind (tell-Keeps env at _ refl) λ _ u k.
      elim (Bool-cases (is_action_execute msg.type)) [
        | inl e ↦ rw e (execute_action-Keeps env services ctx live k msg.data_string)
        | inr e ↦ rw e (tell-Keeps env k _ refl)
      ]

-- The library reports no lost connection.
abbrev pub NoDisconnect : List Callback → Type 0
NoDisconnect [] = Unit
NoDisconnect (connected ∷ cs) = NoDisconnect cs
NoDisconnect (message m ∷ cs) = NoDisconnect cs
NoDisconnect (disconnected ∷ cs) = ⊥

-- The state between `init_connections` and a lost connection.
pub record IsServing (ctx : ℕ) (v : View) : Type 0 where
  pub live : IsLive ctx v.blocks
  pub config : (c : Bytes × Bytes) × (v.context.config ≡ some (mqtt_config c.0 c.1))
  pub user_data : v.context.user_data ≡ ctx

module _ (env : Env) (services : Services env) {v : View} (ctx : ℕ)
    (serving : IsServing ctx v) where
  run_callback-Keeps :
      (c : Callback) {t : Sys}
      → NoDisconnect (c ∷ [])
      → At v t
      → Returns (Keeps v) (run_callback env t.context.config t.context.user_data c t)
  run_callback-Keeps c {t} quiet at =
      configured c _ _ (ap (λ (x : Context). x.config) at.context ∙ serving.config.1)
        (ap (λ (x : Context). x.user_data) at.context ∙ serving.user_data) quiet
    where
      configured :
          (c : Callback) (o : Option Config) (user_data : ℕ)
          → o ≡ some (mqtt_config serving.config.0.0 serving.config.0.1)
          → user_data ≡ ctx
          → NoDisconnect (c ∷ [])
          → Returns (Keeps v) (run_callback env o user_data c t)
      configured connected o ud e1 e2 q =
          rw (e1, e2)
            (unfold run_callback run_handler in on_connected-Keeps env services ctx serving.live at)
      configured (message m) o ud e1 e2 q =
          rw (e1, e2)
            (unfold run_callback run_handler in
              on_messages-Keeps env services ctx serving.live at m)
      configured disconnected o ud e1 e2 q = absurd q

  pub run_callbacks-Keeps :
      (cs : List Callback) (t : Sys)
      → NoDisconnect cs
      → At v t
      → Returns (Keeps v) (run_callbacks env cs t)
  unfolding run_callbacks
  run_callbacks-Keeps [] t quiet at = ends at
  run_callbacks-Keeps (connected ∷ cs) t quiet at =
      Logic.bind (run_callback-Keeps connected tt at) λ _ u k. run_callbacks-Keeps cs u quiet k
  run_callbacks-Keeps (message m ∷ cs) t quiet at =
      Logic.bind (run_callback-Keeps (message m) tt at) λ _ u k. run_callbacks-Keeps cs u quiet k
  run_callbacks-Keeps (disconnected ∷ cs) t quiet at = absurd quiet
