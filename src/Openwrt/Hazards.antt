-- ===== src/Openwrt/Hazards.antt =====
-- The ways in which the OpenWrt daemon can run into undefined behaviour, or lose memory.
pub mod Inputs
use tuya_daemon.Base.{
  ℕ, suc, ◌≡◌, refl, Bool, true, false, some, List, [], ◌∷◌, String, is_zero, member, remove, arith,
  ◌==◌,
}
use tuya_daemon.World.{
  Bytes, Event, History, Sys, disconnected, Env, Outcome, fault, Fault, uninitialised,
  use_after_free, and_then, free_block, touch, Context, Field,
}
use tuya_daemon.World.Logic
use tuya_daemon.World.Logic.{
  Returns, ends, View, with_blocks, At, At-view, view, At-note, tell-Keeps, call-Keeps, call-Marks,
  tell-Marks, marked, touch-Keeps, malloc-Keeps, runs,
}
use tuya_daemon.World.Faults.{Faults, faults, after, through}
use tuya_daemon.Openwrt.Ubus.{
  ubus_free, ubus_invoke, handle_replies, blobmsg_add, uninitialised_response, DataCallback,
}
use tuya_daemon.Openwrt.SendInfo.{
  lookup_ubus_service, send_memory_info, control_device_pin, read_success,
}
use tuya_daemon.Openwrt.SendInfo.Replies.{IsLive}
use tuya_daemon.Openwrt.Connection.{
  on_disconnect, run_callback, run_callbacks, run_handler, tuya_mqtt_loop, mqtt_config,
}
use tuya_daemon.Openwrt.Main.{main_loop_from}

-- An address that is live, and no longer so once it is freed.
pub record IsOwned (a : ℕ) (bs : List ℕ) : Type 0 where
  pub ne_null : (a == 0) ≡ false
  pub live : member a bs ≡ true
  pub once : member a (remove a bs) ≡ false

module _ (env : Env) where
  touch_freed :
      {v : View} {t : Sys} (a : ℕ)
      → At v t
      → (a == 0) ≡ false
      → member a v.blocks ≡ false
      → Faults use_after_free (touch env a t)
  unfolding touch
  touch_freed {t} a at nz gone =
      let dead : member a t.blocks ≡ false = rw at.blocks gone in rw (nz, dead) faults

  free_block-Frees :
      {v : View} {t : Sys} (a : ℕ)
      → At v t
      → member a v.blocks ≡ true
      → Returns (λ _ u. At (with_blocks (remove a v.blocks) v) u) (free_block env a t)
  unfolding free_block
  free_block-Frees {t} a at live =
      let l : member a t.blocks ≡ true = rw at.blocks live in
      rw l (ends (At-note env _ refl (ground arith)))

  on_disconnect-Frees :
      {v : View} {t : Sys} (ctx : ℕ)
      → At v t
      → IsOwned ctx v.blocks
      → Returns (λ _ u. At (with_blocks (remove ctx v.blocks) v) u) (on_disconnect env ctx t)
  unfolding on_disconnect ubus_free
  on_disconnect-Frees ctx at own =
      Logic.bind
        (Logic.bind (touch-Keeps env at ctx own.ne_null own.live)
          λ _ u k. Logic.bind (free_block-Frees ctx k own.live) λ _ u1 k1. tell-Keeps env k1 _ refl)
        λ _ u2 k2. tell-Keeps env k2 _ refl

  send_memory_info_freed :
      {v : View} {t : Sys} (ctx : ℕ)
      → At v t
      → (ctx == 0) ≡ false
      → member ctx v.blocks ≡ false
      → Faults use_after_free (send_memory_info env ctx t)
  unfolding send_memory_info lookup_ubus_service touch
  send_memory_info_freed {t} ctx at nz gone =
      let dead : member ctx t.blocks ≡ false = rw at.blocks gone in rw (nz, dead) faults

  module _ (t : Sys) (ctx : ℕ) (device_id device_secret : Bytes)
      (configured : t.context
        ≡ record { config = some (mqtt_config device_id device_secret); user_data = ctx })
      (own : IsOwned ctx t.blocks) where
    disconnects :
        (c : Context)
        → c ≡ record { config = some (mqtt_config device_id device_secret); user_data = ctx }
        → Returns
            (λ _ u. At (with_blocks (remove ctx t.blocks) (view t)) u)
            (run_callback env c.config c.user_data disconnected t)
    disconnects c e =
        rw e (unfold run_callback run_handler in on_disconnect-Frees ctx (At-view t) own)

    loop_disconnects :
        env.loop_callbacks t.history ≡ disconnected ∷ []
        → ((h : History) → is_zero (env.tuya_mqtt_loop h) ≡ true)
        → Returns
            (λ r u.
              At (marked (Event.mqtt_loop r) (with_blocks (remove ctx t.blocks) (view t))) u
              × (is_zero r ≡ true))
            (tuya_mqtt_loop env t)
    unfolding tuya_mqtt_loop run_callbacks
    loop_disconnects lost ok = rw lost (
        Logic.bind (Logic.bind (disconnects t.context configured) λ _ u k. ends k) λ _ u k.
          Logic.mono (call-Marks env k env.tuya_mqtt_loop _ (λ _. refl))
            λ r w (k', e). (k', rw (e, ok _)))

    -- If `keep_running` is set, the context is the one of `init_connections` with a live ubus
    -- connection, allocated once, as its `user_data`, the only callback of the round is the loss of
    -- the MQTT connection, and `tuya_mqtt_loop` nevertheless succeeds, then the main loop uses the
    -- ubus connection after `on_disconnect` has freed it.
    pub main_loop_disconnected :
        (fuel n : ℕ)
        → t.keep_running ≡ 1
        → env.loop_callbacks t.history ≡ disconnected ∷ []
        → ((h : History) → is_zero (env.tuya_mqtt_loop h) ≡ true)
        → Faults use_after_free (main_loop_from env (suc fuel) n ctx t)
    unfolding main_loop_from
    main_loop_disconnected fuel n running lost ok =
        let still : (t.keep_running == 1) ≡ true = ground arith in
        rw still (
          after (loop_disconnects lost ok) λ ret u (k, fine). rw fine (
            after (tell-Marks env k _ refl)
              λ _ w k'. through _ (send_memory_info_freed ctx k' own.ne_null own.once)))

module _ (env : Env) {v : View} (t : Sys) (ctx : ℕ) (live : IsLive ctx v.blocks) (at : At v t)
    (known : (h : History) → is_zero (env.ubus_lookup_id h) ≡ true) where
  lookup-Finds :
      (name : String)
      → Returns
          (λ found u. ((id : ℕ) × (found ≡ some id)) × At v u)
          (lookup_ubus_service env ctx name t)
  unfolding lookup_ubus_service
  lookup-Finds name = Logic.bind (touch-Keeps env at ctx live.ne_null live.live) λ _ u k.
      Logic.bind (call-Keeps env k env.ubus_lookup_id _ (λ _. refl))
        λ ret w (k', e). rw (e, known _) (ends ((_, refl), k'))

  -- If the ubus connection is live, the service is found, and the request has no room for its
  -- fields, then `control_device_pin` returns false and leaves one block allocated that was not
  -- there before: the request is not freed.
  pub control_device_pin_no_room :
      (turn_on : Bool) (device : String) (pin : ℕ)
      → ((h : History) → env.blobmsg_add h ≡ false)
      → Returns
          (λ r u. (r ≡ false) × (a : ℕ) × At (with_blocks (a ∷ v.blocks) v) u)
          (control_device_pin env ctx turn_on device pin t)
  unfolding control_device_pin blobmsg_add
  control_device_pin_no_room turn_on device pin full =
      Logic.bind (lookup-Finds "devctl") λ found u ((id, e), k). rw e (
        Logic.bind (malloc-Keeps env k) λ b u1 k1.
          Logic.bind (call-Keeps env k1 env.blobmsg_add _ (λ _. refl)) λ added u2 (k2, e2).
            rw (e2, full u1.history)
              (Logic.bind (tell-Keeps env k2 _ refl) λ _ u3 k3. ends (refl, b, k3)))

module _ (env : Env) {v : View} (ctx : ℕ) (live : IsLive ctx v.blocks)
    (known : (h : History) → is_zero (env.ubus_lookup_id h) ≡ true)
    (ok : (h : History) → is_zero (env.ubus_invoke h) ≡ true)
    (silent : (h : History) → env.ubus_replies h ≡ []) where
  invoke_unanswered :
      (t : Sys) (id : ℕ) (m : String) (fs : List Field) (cb : DataCallback)
      → At v t
      → Returns
          (λ r u. At v u × (is_zero r.0 ≡ true) × (r.1 ≡ uninitialised_response))
          (ubus_invoke env ctx id m fs cb uninitialised_response t)
  unfolding ubus_invoke handle_replies
  invoke_unanswered t id m fs cb at =
      Logic.bind (touch-Keeps env at ctx live.ne_null live.live) λ _ w k.
        rw (silent w.history)
          (Logic.bind (tell-Keeps env k _ refl) λ _ x k'. ends (k', ok w.history, refl))

  -- If the ubus connection is live, the service is found, and ubus reports success without having
  -- answered, then `send_memory_info` reads `request_successful` uninitialised.
  pub send_memory_info_unanswered :
      (t : Sys) → At v t → Faults uninitialised (send_memory_info env ctx t)
  unfolding send_memory_info read_success
  send_memory_info_unanswered t at =
      after (lookup-Finds env t ctx live at known "system") λ found u ((id, e), k).
        rw e
          (after (invoke_unanswered u id _ _ _ k) λ r w (k', fine, empty). rw (fine, empty) faults)
