-- ===== src/Openwrt/SendInfo/Replies.antt =====
-- Who owns the answers of ubus, step by step: the callbacks.
use tuya_daemon.Base.{
  ℕ, ◌≡◌, refl, inl, inr, true, false, some, List, [], ◌∷◌, String, is_zero, member, Bool-cases,
  Option-cases, ◌==◌,
}
use tuya_daemon.World.{CharPtr, null, block, Event, History, Sys, Blob, Env, done, and_then, tell}
use tuya_daemon.World.Logic
use tuya_daemon.World.Logic.{
  Returns, ends, View, with_blocks, At, Keeps, is_lifecycle, IsReadable, tell-Keeps, call-Keeps,
  malloc-Keeps, lend-Keeps, free_block-Keeps, free_second-Keeps, touch-Keeps,
}
use tuya_daemon.Openwrt.Ubus.{UbusResponse, DataCallback, blobmsg_format_json}
use tuya_daemon.Openwrt.SendInfo.{
  info_policy, memory_data, devctl_policy, devctl_ctl_policy, memory_incomplete, answer_incomplete,
  failed, succeeded, ubus_received_mem_data_cb, ubus_received_dev_list_cb, ubus_dev_command_resp_cb,
}

-- A successful request gets one reply, and a failed one gets none.
pub record OneReply (env : Env) : Type 0 where
  pub answered :
      (h : History)
      → is_zero (env.ubus_invoke h) ≡ true
      → (b : Blob) × (env.ubus_replies h ≡ b ∷ [])
  pub unanswered : (h : History) → is_zero (env.ubus_invoke h) ≡ false → env.ubus_replies h ≡ []

-- An address that is not NULL and is live.
pub record IsLive (a : ℕ) (bs : List ℕ) : Type 0 where
  pub ne_null : (a == 0) ≡ false
  pub live : member a bs ≡ true

-- The blocks with that of a formatted text on top.
abbrev pub owned : CharPtr → List ℕ → List ℕ
owned (block a t) bs = a ∷ bs
owned _ bs = bs

-- What `blobmsg_format_json` returns.
pub data IsFormatted : CharPtr → Type 0 where
  absent : IsFormatted null
  formatted : (a : ℕ) (t : String) → IsFormatted (block a t)

pub data Answered (v : View) : UbusResponse → Sys → Type 0 where
  refused :
      {resp : UbusResponse} {u : Sys}
      → resp.request_successful ≡ some false
      → At v u
      → Answered v resp u
  accepted :
      {json : CharPtr} {u : Sys}
      → IsFormatted json
      → At (with_blocks (owned json v.blocks) v) u
      → Answered v (succeeded json) u

-- A callback owns nothing but the text that it hands over.
abbrev pub Hands : DataCallback → Type 0
Hands cb =
    (v : View) (t : Sys) (msg : Blob) (resp : UbusResponse)
    → At v t
    → Returns (Answered v) (cb msg resp t)

module _ (env : Env) {v : View} {t : Sys} (at : At v t) where
  pub format-Owned :
      (b : Blob)
      → Returns
          (λ json u. IsFormatted json × At (with_blocks (owned json v.blocks) v) u)
          (blobmsg_format_json env b t)
  unfolding blobmsg_format_json
  format-Owned b = elim (Option-cases (env.blobmsg_format_json b)) [
    | inl e ↦ rw (e, blobmsg_format_json) (ends (absent, at))
    | inr (x, e) ↦
        rw (e, blobmsg_format_json)
          (Logic.bind (malloc-Keeps env at) λ a u k. ends (formatted a x, k))
  ]

  -- A branch of a callback that refuses the reply.
  pub refuse-Answered :
      (e : Event) (resp : UbusResponse)
      → is_lifecycle e ≡ false
      → Returns (Answered v) (and_then (tell env e t) (λ _. done (failed resp)))
  refuse-Answered e resp silent =
      Logic.bind (tell-Keeps env at e silent) λ _ u k. ends (refused refl k)

  pub accept-Answered :
      (b : Blob)
      → Returns (Answered v) (and_then (blobmsg_format_json env b t) (λ j. done (succeeded j)))
  accept-Answered b = Logic.bind (format-Owned b) λ j u (f, k). ends (accepted f k)

module _ (env : Env) where
  pub mem_data-Hands : Hands (ubus_received_mem_data_cb env)
  unfolding ubus_received_mem_data_cb
  mem_data-Hands v t msg resp at =
      elim (Bool-cases (is_zero (env.blobmsg_parse info_policy (env.blob_data msg)))) [
        | inr bad ↦ rw bad (refuse-Answered env at _ resp refl)
        | inl good ↦
            rw good
              (elim (Option-cases (env.blobmsg_table info_policy (env.blob_data msg) memory_data)) [
                | inl missing ↦ rw missing (refuse-Answered env at _ resp refl)
                | inr (attr, found) ↦ rw found (elim (Bool-cases (memory_incomplete env attr)) [
                  | inl bad ↦ rw bad (refuse-Answered env at _ resp refl)
                  | inr full ↦ rw full (accept-Answered env at attr)
                ])
              ])
      ]

  pub dev_list-Hands : Hands (ubus_received_dev_list_cb env)
  unfolding ubus_received_dev_list_cb
  dev_list-Hands v t msg resp at = elim (Bool-cases (answer_incomplete env devctl_policy 0 1 msg)) [
    | inl bad ↦ rw bad (refuse-Answered env at _ resp refl)
    | inr full ↦ rw full (accept-Answered env at msg)
  ]

  pub dev_command-Hands : Hands (ubus_dev_command_resp_cb env)
  unfolding ubus_dev_command_resp_cb
  dev_command-Hands v t msg resp at =
      elim (Bool-cases (answer_incomplete env devctl_ctl_policy 0 1 msg)) [
        | inl bad ↦ rw bad (refuse-Answered env at _ resp refl)
        | inr full ↦ rw full (accept-Answered env at msg)
      ]
