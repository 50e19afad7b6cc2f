-- ===== src/Openwrt/Walks/Reports/Senders.antt =====
-- openwrt/tuya_daemon/src/send_info.c: what the three senders report.
use tuya_daemon.Base.{
  ℕ, ◌≡◌, refl, ◌∙◌, ◌⊎◌, inl, inr, Bool, true, false, not, String, ℤ, is_zero, is_negative,
  if◌then◌else◌, Option-cases, Bool-cases,
}
use tuya_daemon.World.{
  CharPtr, unset, Event, History, Blob, Env, Sys, Cmd, pure, ◌>>=◌, ◌>>◌, syslog, log_err, tell,
  call, free, lend,
}
use tuya_daemon.World.Steps.{
  Reach, here, if-Walk, pure-Walk, malloc-Walk, free_block-Walk, free-Walk, lend-Walk,
}
use tuya_daemon.World.Steps.Invariants.{Adds, Reach-Adds}
use tuya_daemon.World.Steps.Reports.{
  restart, Unreported, reports, Reports, stopped, no_report, bind-Reports, quiet-Reports,
  false-Reports, after-Reports, report-made, note-reports, Reach-reports, if-Reports, assoc-Reports,
}
use tuya_daemon.Openwrt.Ubus.{UbusResponse, blobmsg_add}
use tuya_daemon.Openwrt.SendInfo.{
  devctl_policy, devctl_ctl_policy, report_property_to_tuya, report_answer, read_success,
  send_memory_info, send_connected_devices_list, control_device_pin,
}
use tuya_daemon.Openwrt.Walks.{
  Ordinary, told, lookup-Walk, add-Walk, read_success-Walk, mem_data-Walk, dev_list-Walk,
  dev_command-Walk, invoke-Walk,
}
use tuya_daemon.Openwrt.Walks.Reports.{
  IsMemoryReply, IsDevctlReply, Answer, Response, mem_data-Screens, dev_list-Screens,
  dev_command-Screens, invoke-Response,
}

silent : (e : Event) → Ordinary e → Unreported e
silent (Event.property_report p ret) h = absurd h
silent _ h = refl

-- The text of a valid reply to a request that has started after the history `before`, and before
-- the history `now`.
pub data Since (env : Env) (Valid : Blob → Blob → Type 0) (before : History) (p : CharPtr)
    (now : History) : Type 0 where
  since :
      (h : History)
      → Adds (λ _. Unit) before h
      → Adds (λ _. Unit) h now
      → Answer env Valid h p
      → Since env Valid before p now

-- What `m` leaves in the state `s`, counted from `start`, in a sender that has started at `before`.
abbrev Sent :
    (env : Env) (Valid : Blob → Blob → Type 0) (before : History) (start : Sys) (m : Cmd Bool)
    (s : Sys)
    → Type 0
Sent env Valid before start m s = Reports (reports start.history) (Since env Valid before) (m s)

-- What a sender leaves that starts in the state `s`.
abbrev pub Sends : (env : Env) (Valid : Blob → Blob → Type 0) (m : Cmd Bool) (s : Sys) → Type 0
Sends env Valid m s = Sent env Valid s.history s m s

later : {env : Env} {s t : Sys} → Reach env Unreported s t → Adds (λ _. Unit) s.history t.history
later path = Reach-Adds (λ _ _. tt) (λ _. tt) (λ _. tt) path

-- From the start of the request on.
module _ (env : Env) (Valid : Blob → Blob → Type 0) (before : History) (start : Sys) where
  -- The report of a text that can be read, and what follows it.
  abbrev ask : CharPtr → Cmd Bool
  ask p = call env env.property_report (Event.property_report p) >>= λ ret_val.
      if is_negative ret_val
      then (syslog env log_err "Failed to send message to Tuya. Error core: %d, message data: %s"
          >> pure false)
      else pure true

  abbrev dispose : CharPtr → Bool → Cmd Bool
  dispose p ret = free env p >> pure ret

  asked-Sent :
      (p : CharPtr) (s : Sys)
      → Adds (λ _. Unit) before start.history
      → Answer env Valid start.history p
      → Reach env Unreported start s
      → Sent env Valid before start (ask p >>= dispose p) s
  unfolding call tell
  asked-Sent p s begun sent path = elim (Bool-cases (is_negative (env.property_report s.history))) [
    | inl bad ↦ rw bad (
        after-Reports (rw bad refl) (since start.history begun (later path) sent)
          (note-reports env _ _ refl ∙ report-made p (env.property_report s.history) path)
          (free-Walk p))
    | inr ok ↦ rw ok (
        after-Reports (rw ok refl) (since start.history begun (later path) sent)
          (report-made p (env.property_report s.history) path) (free-Walk p))
  ]

  report_text-Sent :
      (p : CharPtr) (s : Sys)
      → Adds (λ _. Unit) before start.history
      → (p ≡ unset) ⊎ Answer env Valid start.history p
      → Reach env Unreported start s
      → Sent env Valid before start (report_property_to_tuya env p >>= dispose p) s
  unfolding report_property_to_tuya lend
  report_text-Sent p s begun (inl e) path =
      rw e (stopped tt (rw (Reach-reports env path) no_report))
  report_text-Sent p s begun (inr sent) path =
      assoc-Reports (lend env p s) (λ _. ask p) (dispose p)
        (quiet-Reports path (lend-Walk p) λ _ u path1. asked-Sent p u begun sent path1)

  answer-Sent :
      (resp : UbusResponse) (s : Sys)
      → Adds (λ _. Unit) before start.history
      → Response env Valid start.history resp
      → Reach env Unreported start s
      → Sent env Valid before start (report_answer env resp) s
  unfolding report_answer
  answer-Sent resp s begun good path = report_text-Sent resp.data_json s begun good path

  log-Sent :
      (t : String) (s : Sys)
      → Reach env Unreported start s
      → Sent env Valid before start (syslog env log_err t >> pure false) s
  log-Sent t s path =
      quiet-Reports path (told silent (Event.syslog log_err t) tt) λ _ u path1. false-Reports path1

  settle-Sent :
      (ret : ℤ) (resp : UbusResponse) (t : String) (rest : Cmd Bool) (s : Sys)
      → Reach env Unreported start s
      → ((u : Sys) → Reach env Unreported start u → Sent env Valid before start rest u)
      → Sent env Valid before start
          (if not (is_zero ret)
            then (syslog env log_err t >> pure false)
            else (read_success env resp >>= λ good. if not good then pure false else rest))
          s
  settle-Sent ret resp t rest s path then_rest =
      if-Reports (not (is_zero ret)) _ _ (log-Sent t s path) (
        quiet-Reports path (read_success-Walk silent resp)
          λ good u path1. if-Reports (not good) _ _ (false-Reports path1) (then_rest u path1))

module _ (env : Env) (c : ℕ) (s : Sys) where
  -- In every environment and from every state: `send_memory_info` makes at most one report, and if
  -- it makes one, the text is what `blobmsg_format_json` makes of the memory table of a reply that
  -- parses and has the table, which parses and has all six numbers, a reply that ubus gives to a
  -- request that starts within this call and before the report. If it returns, the result is true
  -- exactly if the report has been made and the library has not refused it with a negative code. If
  -- it faults, the same holds of the reports made so far.
  pub send_memory_info-Sends : Sends env (IsMemoryReply env) (send_memory_info env c) s
  unfolding send_memory_info
  send_memory_info-Sends = quiet-Reports here (lookup-Walk silent c "system") λ found u path.
      elim (Option-cases found) [
        | inl e ↦ rw e (false-Reports path)
        | inr (id, e) ↦ rw e (
            restart path (
              bind-Reports (λ a. Response env (IsMemoryReply env) u.history a.1) here
                (invoke-Walk silent c id _ _ _ _ (mem_data-Walk silent) (λ _. refl))
                (invoke-Response env _ (mem_data-Screens env) c id _ _ u)
                λ a v good path1.
                  settle-Sent env _ s.history u a.0 a.1 _ _ v path1
                    (λ w path2. answer-Sent env _ s.history u a.1 w (later path) good path2)))
      ]

  -- In every environment and from every state: `send_connected_devices_list` makes at most one
  -- report, and if it makes one, the text is what `blobmsg_format_json` makes of a reply that
  -- parses and has a count and devices, a reply that ubus gives to a request that starts within
  -- this call and before the report. If it returns, the result is true exactly if the report has
  -- been made and the library has not refused it with a negative code. If it faults, the same holds
  -- of the reports made so far.
  pub send_connected_devices_list-Sends :
      Sends env (IsDevctlReply env devctl_policy) (send_connected_devices_list env c) s
  unfolding send_connected_devices_list
  send_connected_devices_list-Sends =
      quiet-Reports here (lookup-Walk silent c "devctl") λ found u path. elim (Option-cases found) [
        | inl e ↦ rw e (false-Reports path)
        | inr (id, e) ↦ rw e (
            restart path (
              bind-Reports (λ a. Response env (IsDevctlReply env devctl_policy) u.history a.1) here
                (invoke-Walk silent c id _ _ _ _ (dev_list-Walk silent) (λ _. refl))
                (invoke-Response env _ (dev_list-Screens env) c id _ _ u)
                λ a v good path1. settle-Sent env _ s.history u a.0 a.1 _ _ v path1 (λ w path2.
                  quiet-Reports path2 (told silent _ tt)
                    λ _ x path3. answer-Sent env _ s.history u a.1 x (later path) good path3)))
      ]

  -- In every environment and from every state: `control_device_pin` makes at most one report, and
  -- if it makes one, the text is what `blobmsg_format_json` makes of a reply that parses and has a
  -- status and a message, a reply that ubus gives to a request that starts within this call and
  -- before the report. If it returns, the result is true exactly if the report has been made and
  -- the library has not refused it with a negative code. If it faults, the same holds of the
  -- reports made so far.
  pub control_device_pin-Sends :
      (turn_on : Bool) (device : String) (pin : ℕ)
      → Sends env
          (IsDevctlReply env devctl_ctl_policy)
          (control_device_pin env c turn_on device pin)
          s
  unfolding control_device_pin
  control_device_pin-Sends turn_on device pin =
      quiet-Reports here (lookup-Walk silent c "devctl") λ found u0 path0.
        elim (Option-cases found) [
          | inl e ↦ rw e (false-Reports path0)
          | inr (id, e) ↦ rw e (
              quiet-Reports path0 malloc-Walk λ b u1 path1.
                quiet-Reports path1 (add-Walk silent _) λ added u2 path2.
                  quiet-Reports path2
                    (if-Walk added (blobmsg_add env _) _ (add-Walk silent _) pure-Walk)
                    λ both u path. if-Reports (not both) _ _ (log-Sent env _ s.history s _ u path) (
                      restart path (
                        bind-Reports
                          (λ a. Response env (IsDevctlReply env devctl_ctl_policy) u.history a.1)
                          here
                          (invoke-Walk silent c id _ _ _ _ (dev_command-Walk silent) (λ _. refl))
                          (invoke-Response env _ (dev_command-Screens env) c id _ _ u)
                          λ a v good path3. quiet-Reports path3 (free_block-Walk b) λ _ w path4.
                            settle-Sent env _ s.history u a.0 a.1 _ _ w path4 (λ x path5.
                              answer-Sent env _ s.history u a.1 x (later path) good path5))))
        ]
