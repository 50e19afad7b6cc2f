-- ===== src/Host/Main/Loop.antt =====
-- tuya_daemon/main.c: how the connection is retried, and how the main loop ends.
use tuya_daemon.Base.{
  ℕ, zero, suc, ◌+◌, ◌<◌, ◌≡◌, refl, ◌≢◌, ◌⊎◌, inl, inr, true, false, List, ℤ, is_zero, arith,
  Bool-cases, ◌==◌, ◌∙◌, ap,
}
use tuya_daemon.World.{Event, Sys, Env}
use tuya_daemon.World.Logic
use tuya_daemon.World.Logic.{unsent, Ends, Returns, ends, runs, of_Returns}
use tuya_daemon.World.Trace.{streak, loop_failed}
use tuya_daemon.Host.Connection.Format.{ValidJson}
use tuya_daemon.Host.Connection.Report.{Clock}
use tuya_daemon.World.Steps.Refused.{Returns-Refused}
use tuya_daemon.Host.Walks.Refused.{send_current_time-Refused}
use tuya_daemon.Host.Main.{main_loop_from}
use tuya_daemon.Host.Main.Serving.{
  Serving, tell-Serving, mark-Serving, notice-Serving, send_current_time-Serving,
  tuya_mqtt_loop-Serving,
}

-- The result of the main loop, and why it has ended.
pub record Ended (bs : List ℕ) (result : ℤ) (u : Sys) : Type 0 where
  pub trace : List Event
  pub serving : Serving bs trace u
  pub told : is_zero result ≡ true → u.keep_running ≢ 1
  pub failed : is_zero result ≡ false → (loop_failed trace ≡ true) ⊎ (streak trace ≡ 10)

-- A main loop that goes on: fewer than ten rounds have failed in a row.
pub record GoesOn (bs : List ℕ) (u : Sys) : Type 0 where
  pub trace : List Event
  pub serving : Serving bs trace u
  pub few : streak trace < 10

module _ (env : Env) (clock : Clock env) (valid : ValidJson env) {bs : List ℕ} where
  -- Conditions: `strftime` and the JSON texts are as the code expects, the format of the time is a
  -- constant or a heap block with the flag set, the configuration is the one of `init_tuya`, every
  -- installed signal handler clears `keep_running`, and the variable `send_fail_count` is the
  -- number of rounds that have failed in a row, less than ten, where a failed round is a
  -- `tuya_mqtt_loop`, a sleep and a notice that the report has failed, with no report that the
  -- library has accepted between the sleep and the notice. Then the main loop runs without
  -- undefined behaviour, whatever callbacks the library runs, and the format is owned as before; if
  -- it ends with 0, `keep_running` has been cleared; if it ends with a failure, then either the
  -- last `tuya_mqtt_loop` has failed or exactly ten rounds have failed in a row. While it runs,
  -- fewer than ten have.
  pub main_loop_from-Ended :
      (fuel n : ℕ) {tr : List Event} (t : Sys)
      → Serving bs tr t
      → streak tr ≡ n
      → n < 10
      → Ends (Ended bs) (GoesOn bs) (main_loop_from env fuel n t)
  unfolding main_loop_from streak unsent
  main_loop_from-Ended zero n t s e small =
      runs record { trace = _; serving = s; few = omega arith }
  main_loop_from-Ended (suc fuel) n t s e small = elim (Bool-cases (t.keep_running == 1)) [
    | inr stop ↦
        rw stop
          (ends record { trace = _; serving = s; told = λ _ e'. ground arith; failed = λ bad. cc })
    | inl go ↦ rw go (
        Logic.bind (of_Returns (tuya_mqtt_loop-Serving env clock valid t s)) λ ret u k.
          elim (Bool-cases (is_zero ret)) [
            | inr broken ↦ rw broken (
                Logic.bind (of_Returns (tell-Serving env k _ refl)) λ _ u1 k1. ends record {
                  trace = _;
                  serving = k1;
                  told = λ good. cc;
                  failed = λ _. inl (rw broken refl);
                })
            | inl ok ↦ rw ok (
                Logic.bind (of_Returns (mark-Serving env k _ refl)) λ _ u1 (k1, slept).
                  Logic.bind
                    (of_Returns (
                      Returns-Refused _ (send_current_time-Refused env u1 (rw slept refl))
                        (send_current_time-Serving env k1 clock)))
                    λ sent u2 (k2, refused). elim (Bool-cases (is_zero sent)) [
                      | inl good ↦ rw good (main_loop_from-Ended fuel 0 u2 k2 refl (omega arith))
                      | inr bad ↦ rw bad (
                          Logic.bind
                            (of_Returns (notice-Serving env k2 _ _ refl (refused (rw bad refl))))
                            λ _ u3 k3. elim (Bool-cases (n + 1 == 10)) [
                              | inl last ↦ rw last (
                                  ends record {
                                    trace = _;
                                    serving = k3;
                                    told = λ x. cc;
                                    failed = λ _. inr (ground (arith, e));
                                  })
                              | inr more ↦ rw more (
                                  main_loop_from-Ended fuel (n + 1) u3 k3 (ap suc e ∙ ground arith)
                                    (ground arith))
                            ])
                    ])
          ])
  ]
