-- ===== src/Openwrt/Main/Serving.antt =====
-- openwrt/tuya_daemon/src/main.c: from `connect_to_tuya` to the end of the main loop, no memory is
-- lost.
use tuya_daemon.Base.{
  ℕ, zero, suc, ◌≡◌, refl, ◌≢◌, inl, inr, Bool, true, false, List, [], ◌∷◌, ℤ, is_zero, arith,
  Bool-cases, ◌==◌,
}
use tuya_daemon.World.{Event, Sys, Env, when, syslog, log_info}
use tuya_daemon.World.Logic
use tuya_daemon.World.Logic.{
  Ends, Returns, ends, runs, of_Returns, View, At, At-view, view, Quits, lifecycle, with_blocks,
  marked, tell-Keeps, call-Marks, free_block-Keeps, touch-Keeps, malloc-Keeps, Keeps, At-note,
}
use tuya_daemon.World.Trace.{with_trace, is_up, streak}
use tuya_daemon.Openwrt.Connection.Memory.{Services, IsServing}
use tuya_daemon.Openwrt.Connection.Lifecycle.{IsServing-trace, Connected, connect_to_tuya-Connected}
use tuya_daemon.Openwrt.Connection.Retries.{StaysUp, Same, Same-of_At}
use tuya_daemon.Openwrt.Main.{main_loop, main_loop_from, serve}
use tuya_daemon.Openwrt.Main.Loop.{main_loop-LoopEnd}

up-streak : (tr : List Event) → is_up tr ≡ true → streak tr ≡ 0
unfolding streak
up-streak (Event.mqtt_connected b ∷ tr) h = refl
up-streak [] h = refl
up-streak (e ∷ tr) h = absurd (cc)

module _ (env : Env) (services : Services env) (up : StaysUp env) (ctx : ℕ) where
  -- A main loop whose signal has come ends at once.
  main_loop-Stopped :
      (fuel : ℕ) {v : View} (t : Sys)
      → t.keep_running ≢ 1
      → At v t
      → Ends (λ _ u. Same v u) (Same v) (main_loop env fuel ctx t)
  unfolding main_loop main_loop_from
  main_loop-Stopped zero {v} t stopped at = runs (Same-of_At v at)
  main_loop-Stopped (suc fuel) {v} t stopped at = elim (Bool-cases (t.keep_running == 1)) [
    | inl go ↦ absurd (stopped (ground arith))
    | inr stop ↦ rw stop (ends (Same-of_At v at))
  ]

  pub serve-Keeps :
      (fuel : ℕ) {v : View} (t : Sys)
      → Quits v.handlers
      → IsServing ctx v
      → At v t
      → Ends (λ _ u. Same v u) (Same v) (serve env fuel ctx t)
  unfolding serve
  serve-Keeps fuel {v} t quits serving at =
      Logic.bind (connect_to_tuya-Connected env services up ctx fuel quits t serving at)
        λ ret u (c, same). elim (Bool-cases (is_zero ret)) [
          | inr bad ↦ rw bad (ends same)
          | inl ok ↦ rw ok (
              Logic.bind (looped ret u c same ok) λ good w k.
                Logic.bind (of_Returns (goodbye w k (w.keep_running == 0)))
                  λ _ x k'. ends (Same-of_At v k'))
        ]
    where
      looped :
          (ret : ℤ) (u : Sys)
          → Connected v.trace ret u
          → Same v u
          → is_zero ret ≡ true
          → Ends (λ _ w. Same v w) (Same v) (main_loop env fuel ctx u)
      looped ret u c same ok = elim (c.ready ok) [
        | inl is_up ↦
            Logic.map-Ends
              (main_loop-LoopEnd env services up ctx fuel u
                (IsServing-trace env services up ctx _ serving) (up-streak _ is_up) same)
              (λ b w (_, k). Same-of_At v k) (λ w (_, k). Same-of_At v k)
        | inr stopped ↦
            Logic.map-Ends (main_loop-Stopped fuel u stopped same) (λ b w k. Same-of_At v k)
              (λ w k. Same-of_At v k)
      ]

      goodbye :
          (w : Sys)
          → Same v w
          → (b : Bool)
          → Returns
              (λ _ x. At (with_trace (lifecycle w.history) v) x)
              (when b (syslog env log_info "Got signal to exit") w)
      goodbye w k true = tell-Keeps env k _ refl
      goodbye w k false = ends k
