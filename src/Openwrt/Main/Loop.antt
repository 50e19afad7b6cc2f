-- ===== src/Openwrt/Main/Loop.antt =====
-- The main loop of openwrt/tuya_daemon/src/main.c: when it goes on, and how it ends.
use tuya_daemon.Base.{
  ℕ, zero, suc, ◌+◌, ◌<◌, ◌≡◌, refl, ◌≢◌, ◌⊎◌, inl, inr, Bool, true, false, not, is_zero, arith,
  Bool-cases, ◌==◌, ◌∙◌, ap,
}
use tuya_daemon.World.{Sys, Env}
use tuya_daemon.World.Logic
use tuya_daemon.World.Logic.{
  unsent, Ends, Returns, ends, runs, View, At, marked, lifecycle, tell-Keeps, tell-Records,
  tell-Notice, of_Returns,
}
use tuya_daemon.World.Trace.{streak, loop_failed}
use tuya_daemon.World.Steps.Refused.{Returns-Refused}
use tuya_daemon.Openwrt.Walks.Refused.{send_memory_info-Refused}
use tuya_daemon.Openwrt.SendInfo.Memory.{send_memory_info-Keeps}
use tuya_daemon.Openwrt.Connection.Memory.{Services, IsServing}
use tuya_daemon.Openwrt.Connection.Lifecycle.{tuya_mqtt_loop-Marks, IsServing-marked}
use tuya_daemon.Openwrt.Connection.Retries.{StaysUp, Same, Same-of_At}
use tuya_daemon.Openwrt.Main.{main_loop_from, main_loop}

-- The result of the loop, and why it has ended.
pub record LoopEnd (result : Bool) (u : Sys) : Type 0 where
  pub told : result ≡ true → u.keep_running ≢ 1
  pub failed :
      result ≡ false
      → (loop_failed (lifecycle u.history) ≡ true) ⊎ (streak (lifecycle u.history) ≡ 10)

module _ (env : Env) (services : Services env) (up : StaysUp env) (ctx : ℕ) where
  main_loop_from-LoopEnd :
      (fuel n : ℕ) {v : View} (t : Sys)
      → IsServing ctx v
      → streak v.trace ≡ n
      → n < 10
      → At v t
      → Ends
          (λ b u. LoopEnd b u × Same v u)
          (λ u. (streak (lifecycle u.history) < 10) × Same v u)
          (main_loop_from env fuel n ctx t)
  unfolding main_loop_from streak unsent
  main_loop_from-LoopEnd zero n {v} t serving e small at =
      runs (rw at.trace (omega arith), Same-of_At v at)
  main_loop_from-LoopEnd (suc fuel) n {v} t serving e small at =
      elim (Bool-cases (t.keep_running == 1)) [
        | inr stop ↦
            rw stop
              (ends (record { told = λ _ e'. ground arith; failed = λ bad. cc }, Same-of_At v at))
        | inl go ↦ rw go (
            Logic.bind (of_Returns (tuya_mqtt_loop-Marks env services up ctx serving at)) λ ret u k.
              elim (Bool-cases (is_zero ret)) [
                | inr broken ↦ rw broken (
                    Logic.bind (of_Returns (tell-Keeps env k _ refl)) λ _ u1 k1. ends (
                      record { told = λ good. cc; failed = λ _. inl (rw (k1.trace, broken)) },
                      Same-of_At v k1,
                    ))
                | inl ok ↦ rw ok (
                    Logic.bind (of_Returns (tell-Records env k _ refl)) λ _ u1 (k1, slept).
                      Logic.bind
                        (of_Returns (
                          Returns-Refused not (send_memory_info-Refused env ctx u1 (rw slept refl))
                            (send_memory_info-Keeps env services.replies ctx serving.live k1)))
                        λ sent u2 (k2, refused). elim (Bool-cases sent) [
                          | inl good ↦ rw good (
                              main_loop_from-LoopEnd fuel 0 u2
                                (IsServing-marked env services up ctx _
                                  (IsServing-marked env services up ctx _ serving))
                                refl (omega arith) k2)
                          | inr bad ↦ rw bad (
                              Logic.bind
                                (of_Returns (tell-Notice env k2 _ _ refl (refused (rw bad refl))))
                                λ _ u3 k3. elim (Bool-cases (n + 1 == 10)) [
                                  | inl last ↦ rw last (
                                      Logic.bind (of_Returns (tell-Keeps env k3 _ refl)) λ _ u4 k4.
                                        ends (
                                          record {
                                            told = λ x. cc;
                                            failed = λ _. inr (rw k4.trace (ground (arith, e)));
                                          },
                                          Same-of_At v k4,
                                        ))
                                  | inr more ↦ rw more (
                                      main_loop_from-LoopEnd fuel (n + 1) u3
                                        (IsServing-marked env services up ctx _ (
                                          IsServing-marked env services up ctx _
                                            (IsServing-marked env services up ctx _ serving)))
                                        (ap suc e ∙ ground arith) (ground arith) k3)
                                ])
                        ])
              ])
      ]

  -- Conditions: ubus answers a successful request once and a failed one never, requests have room
  -- for their fields, numbers from the cloud fit an `uint32_t`, the library reports no lost
  -- connection, the ubus connection is live and is the context's `user_data`, and no round has
  -- failed just before, where a failed round is a `tuya_mqtt_loop`, a sleep and a notice that the
  -- report has failed, with no report that the library has accepted between the sleep and the
  -- notice. Then the main loop runs without undefined behaviour and loses no memory; if it returns
  -- true, a signal has cleared `keep_running`; if it returns false, then either the last
  -- `tuya_mqtt_loop` has failed, or exactly the last ten rounds have failed in a row. While it
  -- runs, fewer than ten have.
  pub main_loop-LoopEnd :
      (fuel : ℕ) {v : View} (t : Sys)
      → IsServing ctx v
      → streak v.trace ≡ 0
      → At v t
      → Ends
          (λ b u. LoopEnd b u × Same v u)
          (λ u. (streak (lifecycle u.history) < 10) × Same v u)
          (main_loop env fuel ctx t)
  unfolding main_loop
  main_loop-LoopEnd fuel t serving e at = main_loop_from-LoopEnd fuel 0 t serving e (omega arith) at
