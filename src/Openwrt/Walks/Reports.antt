-- ===== src/Openwrt/Walks/Reports.antt =====
-- openwrt/tuya_daemon/src/send_info.c: the answers of ubus that a callback accepts.
pub mod Senders
use tuya_daemon.Base.{
  ◌==◌, member, ℕ, zero, suc, ◌≡◌, ◌≢◌, ◌≤◌, refl, sym, arith, ◌⊎◌, inl, inr, Bool, true, false,
  not, ◌||◌, Option, none, some, List, [], ◌∷◌, String, ℤ, is_zero, if◌then◌else◌, Memᴰ,
  Option-cases, Bool-cases,
}
use tuya_daemon.World.{
  CharPtr, unset, null, block, Policy, Field, Event, History, Blob, Env, Sys, Cmd, pure, ◌>>=◌,
  ◌>>◌, syslog, log_err, tell, malloc, touch,
}
use tuya_daemon.World.Steps.Reports.{Yields, bind-Yields}
use tuya_daemon.Openwrt.Ubus.{
  UbusResponse, uninitialised_response, DataCallback, handle_replies, ubus_invoke,
  blobmsg_format_json,
}
use tuya_daemon.Openwrt.SendInfo.{
  memory_policy, info_policy, devctl_policy, devctl_ctl_policy, memory_data, is_null, failed,
  succeeded, memory_incomplete, answer_incomplete, ubus_received_mem_data_cb,
  ubus_received_dev_list_cb, ubus_dev_command_resp_cb,
}

module _ (env : Env) where
  -- The reply has a memory table, and the table has the six numbers.
  pub record IsMemoryReply (reply table : Blob) : Type 0 where
    pub parses : is_zero (env.blobmsg_parse info_policy (env.blob_data reply)) ≡ true
    pub found : env.blobmsg_table info_policy (env.blob_data reply) memory_data ≡ some table
    pub parses_table : is_zero (env.blobmsg_parse memory_policy (env.blobmsg_data table)) ≡ true
    pub present :
        (i : ℕ)
        → i ≤ 5
        → is_null (env.blobmsg_table memory_policy (env.blobmsg_data table) i) ≡ false

  -- The reply has the two fields of the policy.
  pub record IsDevctlReply (policy : List Policy) (reply printed : Blob) : Type 0 where
    pub itself : printed ≡ reply
    pub parses : is_zero (env.blobmsg_parse policy (env.blob_data reply)) ≡ true
    pub first : is_null (env.blobmsg_table policy (env.blob_data reply) 0) ≡ false
    pub second : is_null (env.blobmsg_table policy (env.blob_data reply) 1) ≡ false

  -- The text that the library makes of an attribute.
  pub data IsText (attr : Blob) : CharPtr → Type 0 where
    absent : env.blobmsg_format_json attr ≡ none → IsText attr null
    formatted :
        (a : ℕ) (t : String) → env.blobmsg_format_json attr ≡ some t → IsText attr (block a t)

  -- The text of an attribute in a valid reply to the request that starts after `h`.
  pub data Answer (Valid : Blob → Blob → Type 0) (h : History) (p : CharPtr) : Type 0 where
    answer :
        (reply attr : Blob)
        → Memᴰ reply (env.ubus_replies h)
        → Valid reply attr
        → IsText attr p
        → Answer Valid h p

  -- A response whose text, if there is one, has been accepted.
  abbrev pub Response : (Blob → Blob → Type 0) → History → UbusResponse → Type 0
  Response Valid h resp = (resp.data_json ≡ unset) ⊎ Answer Valid h resp.data_json

  -- A callback that sets the text only to that of a valid reply.
  abbrev pub Screens : (Blob → Blob → Type 0) → DataCallback → Type 0
  Screens Valid cb =
      (h : History) (reply : Blob) (resp : UbusResponse) (s : Sys)
      → Memᴰ reply (env.ubus_replies h)
      → Response Valid h resp
      → Yields (Response Valid h) (cb reply resp s)

  module _ {h : History} where
    refuse :
        {Valid : Blob → Blob → Type 0} (t : String) (resp : UbusResponse) (s : Sys)
        → Response Valid h resp
        → Yields (Response Valid h) ((syslog env log_err t >> pure (failed resp)) s)
    unfolding tell
    refuse t resp s good = good

    accept :
        (Valid : Blob → Blob → Type 0) (reply attr : Blob) (s : Sys)
        → Memᴰ reply (env.ubus_replies h)
        → Valid reply attr
        → Yields
            (Response Valid h)
            ((blobmsg_format_json env attr >>= λ json. pure (succeeded json)) s)
    unfolding blobmsg_format_json malloc
    accept Valid reply attr s given valid = elim (Option-cases (env.blobmsg_format_json attr)) [
      | inl e ↦ rw (e, blobmsg_format_json) (inr (answer reply attr given valid (absent e)))
      | inr (t, e) ↦
          rw (e, blobmsg_format_json) (inr (answer reply attr given valid (formatted s.fresh t e)))
    ]

  complete-present :
      (attr : Blob)
      → memory_incomplete env attr ≡ false
      → (i : ℕ) → i ≤ 5
      → is_null (env.blobmsg_table memory_policy (env.blobmsg_data attr) i) ≡ false
  unfolding memory_incomplete
  complete-present attr h zero small = ground arith
  complete-present attr h (suc zero) small = ground arith
  complete-present attr h (suc (suc zero)) small = ground arith
  complete-present attr h (suc (suc (suc zero))) small = ground arith
  complete-present attr h (suc (suc (suc (suc zero)))) small = ground arith
  complete-present attr h (suc (suc (suc (suc (suc zero))))) small = ground arith
  complete-present attr h (suc (suc (suc (suc (suc (suc i)))))) small = absurd (omega arith)

  complete-parses :
      (attr : Blob)
      → memory_incomplete env attr ≡ false
      → is_zero (env.blobmsg_parse memory_policy (env.blobmsg_data attr)) ≡ true
  unfolding memory_incomplete
  complete-parses attr h = ground arith

  pub mem_data-Screens : Screens IsMemoryReply (ubus_received_mem_data_cb env)
  unfolding ubus_received_mem_data_cb
  mem_data-Screens h b r s given good =
      elim (Bool-cases (is_zero (env.blobmsg_parse info_policy (env.blob_data b)))) [
        | inr bad ↦ rw bad (refuse _ r s good)
        | inl ok ↦
            rw ok
              (elim (Option-cases (env.blobmsg_table info_policy (env.blob_data b) memory_data)) [
                | inl e ↦ rw e (refuse _ r s good)
                | inr (attr, e) ↦ rw e (elim (Bool-cases (memory_incomplete env attr)) [
                  | inl missing ↦ rw missing (refuse _ r s good)
                  | inr whole ↦ rw whole (
                      accept _ b attr s given (record {
                        parses = ok;
                        found = e;
                        parses_table = complete-parses attr whole;
                        present = complete-present attr whole;
                      }))
                ])
              ])
      ]

  devctl-IsDevctlReply :
      (policy : List Policy) (b : Blob)
      → answer_incomplete env policy 0 1 b ≡ false
      → IsDevctlReply policy b b
  unfolding answer_incomplete
  devctl-IsDevctlReply policy b h = record {
    itself = refl;
    parses = ground arith;
    first = ground arith;
    second = ground arith;
  }

  devctl-Response :
      (policy : List Policy) (t : String) (h : History) (b : Blob) (r : UbusResponse) (s : Sys)
      → Memᴰ b (env.ubus_replies h)
      → Response (IsDevctlReply policy) h r
      → Yields (Response (IsDevctlReply policy) h) (
          (if answer_incomplete env policy 0 1 b
              then (syslog env log_err t >> pure (failed r))
              else (blobmsg_format_json env b >>= λ json. pure (succeeded json)))
            s)
  devctl-Response policy t h b r s given good =
      elim (Bool-cases (answer_incomplete env policy 0 1 b)) [
        | inl missing ↦ rw missing (refuse t r s good)
        | inr whole ↦ rw whole (accept _ b b s given (devctl-IsDevctlReply policy b whole))
      ]

  pub dev_list-Screens : Screens (IsDevctlReply devctl_policy) (ubus_received_dev_list_cb env)
  unfolding ubus_received_dev_list_cb
  dev_list-Screens h b r s given good = devctl-Response devctl_policy _ h b r s given good

  pub dev_command-Screens : Screens (IsDevctlReply devctl_ctl_policy) (ubus_dev_command_resp_cb env)
  unfolding ubus_dev_command_resp_cb
  dev_command-Screens h b r s given good = devctl-Response devctl_ctl_policy _ h b r s given good

  module _ {Valid : Blob → Blob → Type 0} (cb : DataCallback) (screens : Screens Valid cb) where
    replies-Response :
        (h : History) (msgs : List Blob) (r : UbusResponse) (s : Sys)
        → ((b : Blob) → Memᴰ b msgs → Memᴰ b (env.ubus_replies h))
        → Response Valid h r
        → Yields (Response Valid h) (handle_replies cb msgs r s)
    unfolding handle_replies
    replies-Response h [] r s given good = good
    replies-Response h (m ∷ ms) r s given good =
        bind-Yields (Response Valid h) _ (cb m r s)
          (screens h m r s (given m (Memᴰ.head refl)) good)
          λ r' u good'. replies-Response h ms r' u (λ b e. given b (Memᴰ.tail e)) good'

    -- The response after a request: the connection is only looked at before it starts.
    pub invoke-Response :
        (c id : ℕ) (method : String) (fields : List Field) (s : Sys)
        → Yields
            (λ a. Response Valid s.history a.1)
            (ubus_invoke env c id method fields cb uninitialised_response s)
    unfolding ubus_invoke tell touch
    invoke-Response c id method fields s = elim (Bool-cases (c == 0)) [
      | inl nothing ↦ rw nothing tt
      | inr nz ↦ rw nz (elim (Bool-cases (member c s.blocks)) [
        | inr dead ↦ rw dead tt
        | inl live ↦ rw live (
            bind-Yields (λ a. Response Valid s.history a.1) _
              (handle_replies cb (env.ubus_replies s.history) uninitialised_response s)
              (replies-Response s.history _ _ s (λ b e. e) (inl refl)) λ r u good. good)
      ])
    ]
