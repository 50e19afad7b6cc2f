-- ===== src/Openwrt/SendInfo/Memory.antt =====
-- Who owns the answers of ubus: what send_info.c allocates and frees.
use tuya_daemon.Base.{ℕ, ◌≡◌, inl, inr, Bool, true, String, Option-cases, refl}
use tuya_daemon.World.{History, Sys, Env}
use tuya_daemon.World.Logic
use tuya_daemon.World.Logic.{
  Returns, ends, View, with_blocks, At, Keeps, IsReadable, tell-Keeps, call-Keeps, malloc-Keeps,
  lend-Keeps, free_block-Keeps, free_second-Keeps, touch-Keeps,
}
use tuya_daemon.Openwrt.Ubus.{blobmsg_add}
use tuya_daemon.Openwrt.SendInfo.{send_memory_info, send_connected_devices_list, control_device_pin}
use tuya_daemon.Openwrt.SendInfo.Replies.{
  OneReply, IsLive, mem_data-Hands, dev_list-Hands, dev_command-Hands,
}
use tuya_daemon.Openwrt.SendInfo.Requests.{
  IsLive-cons, invoke-Invoked, lookup-Keeps, finish-Keeps, finish_logged-Keeps, settle-Keeps,
  release-Invoked,
}

module _ (env : Env) (one : OneReply env) {v : View} {t : Sys} (ctx : ℕ)
    (live : IsLive ctx v.blocks) (at : At v t) where
  -- If the ubus connection is live and ubus answers a successful request once and a failed one
  -- never, `send_memory_info` returns without undefined behaviour from every state, on each of its
  -- branches, and it frees every block that it allocates and no other.
  pub send_memory_info-Keeps : Returns (Keeps v) (send_memory_info env ctx t)
  unfolding send_memory_info
  send_memory_info-Keeps = Logic.bind (lookup-Keeps env ctx "system" live at) λ found u k.
      elim (Option-cases found) [
        | inl e ↦ rw e (ends k)
        | inr (id, e) ↦ rw e (
            Logic.bind (invoke-Invoked env one ctx id _ _ _ (mem_data-Hands env) live k)
              λ r w i. settle-Keeps env _ _ r refl (λ x. finish-Keeps env) i)
      ]

  -- If the ubus connection is live and ubus answers a successful request once and a failed one
  -- never, `send_connected_devices_list` returns without undefined behaviour, and the live blocks
  -- are those before the call.
  pub send_connected_devices_list-Keeps : Returns (Keeps v) (send_connected_devices_list env ctx t)
  unfolding send_connected_devices_list
  send_connected_devices_list-Keeps =
      Logic.bind (lookup-Keeps env ctx "devctl" live at) λ found u k. elim (Option-cases found) [
        | inl e ↦ rw e (ends k)
        | inr (id, e) ↦ rw e (
            Logic.bind (invoke-Invoked env one ctx id _ _ _ (dev_list-Hands env) live k)
              λ r w i. settle-Keeps env _ _ r refl (λ x. finish_logged-Keeps env _ refl) i)
      ]

  -- If the ubus connection is live, ubus answers a successful request once and a failed one never,
  -- and a request has room for its fields, then `control_device_pin` returns without undefined
  -- behaviour for every device, pin and switch, and the live blocks are those before the call: the
  -- request is freed as well as the answer.
  pub control_device_pin-Keeps :
      (turn_on : Bool) (device : String) (pin : ℕ)
      → ((h : History) → env.blobmsg_add h ≡ true)
      → Returns (Keeps v) (control_device_pin env ctx turn_on device pin t)
  unfolding control_device_pin blobmsg_add
  control_device_pin-Keeps turn_on device pin fits =
      Logic.bind (lookup-Keeps env ctx "devctl" live at) λ found u k. elim (Option-cases found) [
        | inl e ↦ rw e (ends k)
        | inr (id, e) ↦ rw e (
            Logic.bind (malloc-Keeps env k) λ b u1 k1.
              Logic.bind (call-Keeps env k1 env.blobmsg_add _ (λ _. refl)) λ added u2 (k2, e2).
                rw (e2, fits u1.history)
                  (Logic.bind (call-Keeps env k2 env.blobmsg_add _ (λ _. refl)) λ both u3 (k3, e3).
                    rw (e3, fits u2.history)
                      (Logic.bind
                        (invoke-Invoked env one ctx id _ _ _ (dev_command-Hands env)
                          (IsLive-cons live) k3)
                        λ r u4 i.
                          Logic.bind (release-Invoked env v b r i)
                            λ _ u5 j. settle-Keeps env _ _ r refl (λ x. finish-Keeps env) j)))
      ]
