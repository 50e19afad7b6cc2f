-- ===== src/Openwrt/Main/Whole.antt =====
-- openwrt/tuya_daemon/src/main.c from its start to its end: the names of the options are freed, and
-- the library is closed if it has been opened.
use tuya_daemon.Openwrt.Walks.Daemon.{uci_free-Walk}
use tuya_daemon.World.Steps
use tuya_daemon.World.Steps.{Walk, free-Walk, pure-Walk}
use tuya_daemon.Base.{
  Bool, true, ℕ, suc, ◌+◌, ◌≤◌, ◌≡◌, refl, ◌⊎◌, inl, inr, List, ◌∷◌, String, ℤ, arith, ◌∙◌, ap,
  length, sym, subst,
}
use tuya_daemon.World.{
  Event, History, Sys, Env, block, CharPtr, Signal, Cmd, syslog, tell, pure, ◌>>◌, free, log_info,
  and_then,
}
use tuya_daemon.World.Logic
use tuya_daemon.World.Logic.{
  Ends, Returns, ends, runs, of_Returns, View, At, At-note, At-view, view, Quits, lifecycle,
  with_blocks, tell-Keeps, call-Keeps, Keeps,
}
use tuya_daemon.World.Trace.{attempts}
use tuya_daemon.World.Steps.Invariants.{Adds-trans, Arrives}
use tuya_daemon.World.Steps.Fresh.{Returns-Adds, Returns-fresh}
use tuya_daemon.Openwrt.Walks.{Ordinary, own, told, called}
use tuya_daemon.Openwrt.Connection.Memory.{Services}
use tuya_daemon.Openwrt.Connection.Retries.{StaysUp}
use tuya_daemon.Openwrt.Main.{exit_failure, run_daemon, uci_free_context, main}
use tuya_daemon.Openwrt.Main.Closing.{Unreported, Farewell, Shut}
use tuya_daemon.Openwrt.Signals.{signal_handler}
use tuya_daemon.Openwrt.Walks.Callbacks.{stops}
use tuya_daemon.World.Steps.Install.{both_Quits, handlers-Installed}
use tuya_daemon.Openwrt.Main.Names.{
  without, Holds, with_four, Holds-with_four, without-with_four, Holds-cons, held1, held2, held3,
  counted, free-Removes, strdup-Named,
}
use tuya_daemon.World.Steps.Finish.{Finishes-Returns}
use tuya_daemon.Openwrt.Walks.Stops.{main_signalled-Finishes}
use tuya_daemon.Openwrt.Main.Configured.{Finished, rejected, served, run_daemon-Finished}

-- From the label `cleanup_end` on.
abbrev pub clean_up : Env → Bool → CharPtr → CharPtr → CharPtr → CharPtr → ℤ → Cmd ℤ
clean_up env have_uci name0 name1 name2 name3 ret_val = do
  syslog env log_info "Cleaning up resources and exiting"
  free env name0
  free env name1
  free env name2
  free env name3
  uci_free_context env have_uci
  tell env Event.closelog
  pure ret_val

clean_up-Walk :
    (env : Env) (n0 n1 n2 n3 : CharPtr) (r : ℤ) {s : Sys}
    → Walk env Ordinary ⊥ s (clean_up env true n0 n1 n2 n3 r s)
clean_up-Walk env n0 n1 n2 n3 r = Steps.bind (told own _ tt) λ _ a. Steps.bind (free-Walk n0) λ _ b.
    Steps.bind (free-Walk n1) λ _ c. Steps.bind (free-Walk n2) λ _ d.
      Steps.bind (free-Walk n3) λ _ e.
        Steps.bind (uci_free-Walk own true) λ _ f. Steps.bind (told own _ tt) λ _ g. pure-Walk

pub clean_up-Frees :
    (env : Env) (f : ℕ) (n0 n1 n2 n3 : String) (r : ℤ) {v : View} (t : Sys)
    → Holds f v.blocks
    → At v t
    → Returns
        (λ r' u. (r' ≡ r) × At (with_blocks (without f v.blocks) v) u)
        (clean_up env true
          (block f n0)
          (block (f + 1) n1)
          (block (f + 2) n2)
          (block (f + 3) n3)
          r
          t)
unfolding uci_free_context
clean_up-Frees env f n0 n1 n2 n3 r {v} t held at = Logic.bind (tell-Keeps env at _ refl) λ _ u k.
    Logic.bind (free-Removes env k f n0 held.at0) λ _ u0 k0.
      Logic.bind (free-Removes env k0 (f + 1) n1 (held1 f v.blocks held)) λ _ u1 k1.
        Logic.bind (free-Removes env k1 (f + 2) n2 (held2 f v.blocks held)) λ _ u2 k2.
          Logic.bind (free-Removes env k2 (f + 3) n3 (held3 f v.blocks held)) λ _ u3 k3.
            Logic.bind (tell-Keeps env k3 _ refl)
              λ _ u4 k4. Logic.bind (tell-Keeps env k4 _ refl) λ _ u5 k5. ends (refl, k5)

-- The end of `main`: with EXIT_FAILURE and no call to the MQTT library, or with the library
-- disconnected and deinitialised as the last calls to it. No block is lost but the ubus connection,
-- which is lost if the library has not reported the end of its connection.
pub data Ended (env : Env) (bs : List ℕ) (tr : List Event) : ℤ → Sys → Type 0 where
  refused : {u : Sys} → u.blocks ≡ bs → lifecycle u.history ≡ tr → Ended env bs tr exit_failure u
  closed :
      {r : ℤ} {u : Sys} (left closed : ℤ) (before : List Event)
      → lifecycle u.history ≡ Event.mqtt_deinit closed ∷ Event.mqtt_disconnect left ∷ before
      → (u.blocks ≡ bs)
        ⊎ (Unreported env left closed before u.history × (length u.blocks ≡ length bs + 1))
      → Ended env bs tr r u

Holds-Shut :
    {env : Env} (f : ℕ) (bs : List ℕ) {w : View} {x : Sys}
    → w.blocks ≡ with_four f bs
    → Shut env w.blocks w x
    → Holds f x.blocks
Holds-Shut f bs mine shut = elim shut.blocks [
  | inl e ↦ subst (Holds f) (sym (e ∙ mine)) (Holds-with_four f bs)
  | inr (lost, (ctx, e)) ↦
      subst (Holds f) (sym (e ∙ ap (λ (l : List ℕ). ctx ∷ l) mine))
        (Holds-cons f ctx _ (Holds-with_four f bs))
]

clean_up-Ended :
    (env : Env) (f : ℕ) (n0 n1 n2 n3 : String) (bs : List ℕ) (old : List Event) {w : View} (r : ℤ)
    (x : Sys)
    → w.blocks ≡ with_four f bs
    → w.trace ≡ old
    → Finished env w r x
    → Returns (Ended env bs old) (
        clean_up env true (block f n0) (block (f + 1) n1) (block (f + 2) n2) (block (f + 3) n3) r x)
clean_up-Ended env f n0 n1 n2 n3 bs old {w} _ x mine same (rejected k) =
    Logic.mono
      (clean_up-Frees env f n0 n1 n2 n3 exit_failure x
        (subst (Holds f) (sym mine) (Holds-with_four f bs)) k)
      λ r' u (e, k').
        subst (λ (q : ℤ). Ended env bs old q u) (sym e)
          (refused (k'.blocks ∙ (ap (without f) mine ∙ without-with_four f bs)) (k'.trace ∙ same))
clean_up-Ended env f n0 n1 n2 n3 bs old {w} r x mine same (served shut) =
    Logic.mono
      (Returns-Adds (clean_up-Walk env (block f n0) (block (f + 1) n1) (block (f + 2) n2) _ r)
        (clean_up-Frees env f n0 n1 n2 n3 r x (Holds-Shut f bs mine shut) (At-view x)))
      λ r' u ((e, k'), more).
        subst (λ (q : ℤ). Ended env bs old q u) (sym e)
          (elim shut.blocks [
            | inl kept ↦
                closed shut.calls.0 shut.calls.1.0 shut.calls.1.1.0 (k'.trace ∙ shut.calls.1.1.1)
                  (inl (k'.blocks ∙ (ap (without f) (kept ∙ mine) ∙ without-with_four f bs)))
            | inr (lost, (ctx, kept)) ↦
                closed shut.calls.0 shut.calls.1.0 shut.calls.1.1.0 (k'.trace ∙ shut.calls.1.1.1) (
                  inr (
                    record {
                      at = lost.at;
                      silent = lost.silent;
                      past = lost.past;
                      since = Adds-trans lost.since more;
                    },
                    counted f ctx bs x.blocks u.blocks k'.blocks
                        (kept ∙ ap (λ (l : List ℕ). ctx ∷ l) mine),
                  ))
          ])

module _ (env : Env) (services : Services env) (up : StaysUp env) (farewell : Farewell env)
    (uci : (h : History) → env.uci_alloc_context h ≡ true) where
  -- From the copies of the names on.
  named-Ended :
      (fuel f : ℕ) (n0 n1 n2 n3 : String) (bs : List ℕ) (old : List Event) {w : View} (t : Sys)
      → w.blocks ≡ with_four f bs
      → w.trace ≡ old
      → Quits w.handlers
      → attempts old ≡ 0
      → 1 ≤ t.fresh
      → At w t
      → Ends
          (Ended env bs old)
          (λ _. Unit)
          (and_then
            (run_daemon env fuel true
              (block f n0)
              (block (f + 1) n1)
              (block (f + 2) n2)
              (block (f + 3) n3)
              t)
            (clean_up env true
              (block f n0)
              (block (f + 1) n1)
              (block (f + 2) n2)
              (block (f + 3) n3)))
  named-Ended fuel f n0 n1 n2 n3 bs old {w} t mine same quits unused positive at =
      let held : Holds f w.blocks = subst (Holds f) (sym mine) (Holds-with_four f bs) in
      Logic.bind
        (run_daemon-Finished env services up farewell fuel (ap attempts same ∙ unused) quits true f
          (f + 1) (f + 2) (f + 3) n0 n1 n2 n3 t positive held.at0 held.at1 held.at2 held.at3 at)
        λ r x finished. of_Returns (clean_up-Ended env f n0 n1 n2 n3 bs old r x mine same finished)

  -- Conditions: the UCI context can be allocated, ubus answers a successful request once and a
  -- failed one never, requests have room for their fields, numbers from the cloud fit an
  -- `uint32_t`, the library reports no lost connection in `tuya_mqtt_loop`, reports at most one in
  -- `tuya_mqtt_disconnect`, and none there if it has never been asked to connect; no address is
  -- NULL, and the run starts with no attempt to connect behind it. Then `main` of the OpenWrt
  -- daemon runs without undefined behaviour with every fuel. If it ends, then either it returns
  -- EXIT_FAILURE with the blocks from before it and no call in its lifecycle (no call to the MQTT
  -- library and no sleep), or the library was disconnected and then deinitialised as the last
  -- lifecycle calls; and in the second case the live blocks are those from before it, so that the
  -- four names, the messages' trees, the answers and the ubus connection have been freed, or
  -- exactly one more is live, which is possible only if the library has reported no lost connection
  -- at the moment in this run when `tuya_mqtt_disconnect` was called.
  pub main-Ended :
      (fuel : ℕ) (s : Sys)
      → 1 ≤ s.fresh
      → attempts (lifecycle s.history) ≡ 0
      → Ends (Ended env s.blocks (lifecycle s.history)) (λ _. Unit) (main env fuel s)
  unfolding main
  main-Ended fuel s positive unused =
      Logic.bind (of_Returns (handlers-Installed env signal_handler s)) λ _ b (kb, fb).
        Logic.bind (of_Returns (Returns-fresh (told own _ tt) (tell-Keeps env kb _ refl)))
          λ _ c (kc, fc).
            Logic.bind (of_Returns (strdup-Named env kc "tuya.tuya_daemon.device_id"))
              λ p0 d (kd, (e0, g0)).
                Logic.bind (of_Returns (strdup-Named env kd "tuya.tuya_daemon.device_secret"))
                  λ p1 e (ke, (e1, g1)).
                    Logic.bind (of_Returns (strdup-Named env ke "tuya.tuya_daemon.product_id"))
                      λ p2 f (kf, (e2, g2)).
                        Logic.bind (of_Returns (strdup-Named env kf "tuya.tuya_daemon.log_level"))
                          λ p3 g (kg, (e3, g3)).
                            let f1 : d.fresh ≡ c.fresh + 1 = g0 in
                            let f2 : e.fresh ≡ c.fresh + 2 = omega arith in
                            let f3 : f.fresh ≡ c.fresh + 3 = omega arith in
                            Logic.bind
                              (of_Returns (
                                Returns-fresh (called own _ _ (λ _. tt))
                                  (call-Keeps env kg env.uci_alloc_context _ (λ _. refl))))
                              λ have x ((kx, ex), fx).
                                rw (e0, e1, e2, e3, f1, f2, f3, ex, uci g.history)
                                  (named-Ended fuel c.fresh _ _ _ _ s.blocks (lifecycle s.history) x
                                    (rw (f3, f2, f1) refl) refl
                                    (both_Quits signal_handler s.handlers stops) unused
                                    (omega arith) kx)

  -- Conditions: those of `main-Ended`, and SIGINT or SIGTERM arrives at the end of some call after
  -- the handlers have been installed, with more fuel than calls up to that moment. Then `main` of
  -- the OpenWrt daemon returns, without undefined behaviour, in one of the two ways of
  -- `main-Ended`.
  pub main_signalled-Ended :
      {g : Signal} {moment : ℕ} (signal : Arrives env g moment) (fuel : ℕ) (s : Sys)
      → 1 ≤ s.fresh
      → attempts (lifecycle s.history) ≡ 0
      → length s.history + 3 ≤ moment
      → moment ≤ length s.history + fuel
      → Returns (Ended env s.blocks (lifecycle s.history)) (main env (suc fuel) s)
  main_signalled-Ended signal fuel s positive unused late enough =
      Finishes-Returns (main-Ended (suc fuel) s positive unused)
        (main_signalled-Finishes signal fuel s late enough)
