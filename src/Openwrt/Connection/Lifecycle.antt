-- ===== src/Openwrt/Connection/Lifecycle.antt =====
-- The loops of connection.c: the wait until the connection is up, and `connect_to_tuya` as a whole.
use tuya_daemon.Base.{
  ◌∷◌, subst, sym, ℕ, zero, suc, ◌+◌, ◌≤◌, ◌≡◌, refl, ◌≢◌, ◌⊎◌, inl, inr, Bool, true, false, not,
  ◌&&◌, List, ◌++◌, ℤ, is_zero, arith, Bool-cases, ◌==◌, ◌∙◌,
}
use tuya_daemon.World.{Event, Sys, Env, tell}
use tuya_daemon.World.Logic
use tuya_daemon.World.Logic.{
  Ends, Returns, ends, runs, View, At, Keeps, marked, lifecycle, tell-Keeps, tell-Marks, call-Marks,
  of_Returns, Quits, tell-Stays, is_lifecycle,
}
use tuya_daemon.World.Trace.{
  with_trace, sleeps, attempts, results, Retries, powers, doubling-powers, is_up, loop_failed,
}
use tuya_daemon.Openwrt.Connection.{tuya_mqtt_loop, wait_connected, connect_to_tuya}
use tuya_daemon.Openwrt.Connection.Memory.{Services, IsServing, run_callbacks-Keeps}
use tuya_daemon.Openwrt.Connection.Retries.{StaysUp, Same, Same-of_At, retry_connect-Retried}

up_or_stopped : (b : Bool) (n : ℕ) → (not b && n == 1) ≡ false → (b ≡ true) ⊎ (n ≢ 1)
up_or_stopped true n h = inl refl
up_or_stopped false n h = inr (λ e. ground arith)

-- The wait adds no sleep and no attempt, and ends with an answer of the library or a signal.
record Waited (naps : List ℕ) (tries : ℕ) (answers : List ℤ) (ret : ℤ) (u : Sys) : Type 0 where
  slept : sleeps (lifecycle u.history) ≡ naps
  attempted : attempts (lifecycle u.history) ≡ tries
  unchanged : results (lifecycle u.history) ≡ answers
  ready : is_zero ret ≡ true → (is_up (lifecycle u.history) ≡ true) ⊎ (u.keep_running ≢ 1)
  broken : is_zero ret ≡ false → loop_failed (lifecycle u.history) ≡ true

module _ (env : Env) (services : Services env) (up : StaysUp env) (ctx : ℕ) where
  pub tuya_mqtt_loop-Marks :
      {v : View} {t : Sys}
      → IsServing ctx v
      → At v t
      → Returns (λ r u. At (marked (Event.mqtt_loop r) v) u) (tuya_mqtt_loop env t)
  unfolding tuya_mqtt_loop
  tuya_mqtt_loop-Marks {t} serving at =
      Logic.bind (run_callbacks-Keeps env services ctx serving _ t (up t.history) at)
        λ _ u k. Logic.mono (call-Marks env k _ _ (λ _. refl)) λ _ w (k', _). k'

  pub IsServing-marked : {v : View} (e : Event) → IsServing ctx v → IsServing ctx (marked e v)
  IsServing-marked e serving = record {
    live = serving.live;
    config = serving.config;
    user_data = serving.user_data;
  }

  pub IsServing-trace :
      {v : View} (tr : List Event) → IsServing ctx v → IsServing ctx (with_trace tr v)
  IsServing-trace tr serving = record {
    live = serving.live;
    config = serving.config;
    user_data = serving.user_data;
  }

  wait_connected-Waited :
      (fuel : ℕ) {v : View} (t : Sys)
      → IsServing ctx v
      → At v t
      → Ends
          (λ r u. Waited (sleeps v.trace) (attempts v.trace) (results v.trace) r u × Same v u)
          (λ u. (sleeps (lifecycle u.history) ≡ sleeps v.trace) × Same v u)
          (wait_connected env fuel t)
  unfolding wait_connected sleeps attempts results
  wait_connected-Waited zero {v} t serving at = runs (rw at.trace, Same-of_At v at)
  wait_connected-Waited (suc fuel) {v} t serving at =
      Logic.bind (of_Returns (call-Marks env at env.tuya_mqtt_connected _ (λ _. refl)))
        λ ready u (k, _). elim (Bool-cases (not ready && u.keep_running == 1)) [
          | inr stop ↦ rw stop (
              ends (
                record {
                  slept = rw k.trace;
                  attempted = rw k.trace;
                  unchanged = rw k.trace;
                  ready = λ _. rw k.trace (up_or_stopped ready u.keep_running stop);
                  broken = λ bad. cc;
                },
                Same-of_At v k,
              ))
          | inl go ↦ rw go (
              Logic.bind (of_Returns (tuya_mqtt_loop-Marks (IsServing-marked _ serving) k))
                λ ret u1 k1. elim (Bool-cases (is_zero ret)) [
                  | inl ok ↦ rw ok (
                      wait_connected-Waited fuel u1
                        (IsServing-marked _ (IsServing-marked _ serving)) k1)
                  | inr bad ↦ rw bad (
                      Logic.bind (of_Returns (tell-Keeps env k1 _ refl)) λ _ u2 k2. ends (
                        record {
                          slept = rw k2.trace;
                          attempted = rw k2.trace;
                          unchanged = rw k2.trace;
                          ready = λ good. cc;
                          broken = λ _. rw (k2.trace, bad);
                        },
                        Same-of_At v k2,
                      ))
                ])
        ]

-- The reason to give up survives a log line.
tell-Reason :
    (env : Env) {v : View} {A : Type 0} {t : Sys}
    → At v t
    → (e : Event) → is_lifecycle e ≡ false
    → Quits v.handlers
    → A ⊎ (t.keep_running ≢ 1)
    → Returns (λ _ u. At v u × (A ⊎ (u.keep_running ≢ 1))) (tell env e t)
tell-Reason env at e silent quits (inl a) =
    Logic.mono (tell-Keeps env at e silent) λ _ u k. (k, inl a)
tell-Reason env at e silent quits (inr stopped) =
    Logic.mono (tell-Stays env at e silent quits stopped) λ _ u (k, s). (k, inr s)

-- How `connect_to_tuya` ends, from the trace that it started with.
pub record Connected (old : List Event) (ret : ℤ) (u : Sys) : Type 0 where
  pub retries : ℕ
  pub bounded : retries ≤ 10
  pub slept : sleeps (lifecycle u.history) ≡ powers retries ++ sleeps old
  pub attempted : attempts (lifecycle u.history) ≡ retries + 1 + attempts old
  -- Every attempt but the first comes after one that failed.
  pub first : ℤ
  pub last : ℤ
  pub chained : Retries first (first ∷ results old) retries last (results (lifecycle u.history))
  pub connected : is_zero ret ≡ true → is_zero last ≡ true
  pub ready : is_zero ret ≡ true → (is_up (lifecycle u.history) ≡ true) ⊎ (u.keep_running ≢ 1)
  pub failed :
      is_zero ret ≡ false
      → (loop_failed (lifecycle u.history) ≡ true) ⊎ ((retries ≡ 10) ⊎ (u.keep_running ≢ 1))

module _ (env : Env) (services : Services env) (up : StaysUp env) (ctx fuel : ℕ) {v : View}
    (quits : Quits v.handlers) where
  -- Conditions: ubus answers a successful request once and a failed one never, requests have room
  -- for their fields, numbers from the cloud fit an `uint32_t`, the library reports no lost
  -- connection, the ubus connection is live and is the context's `user_data`, and every installed
  -- signal handler clears `keep_running`. Then `connect_to_tuya` runs without undefined behaviour
  -- and loses no memory; it retries the connection k times, for a k of at most 10, after sleeps of
  -- 2, 4, ..., 2 ^ k seconds, so that it has tried k + 1 times, and every attempt but the first
  -- comes after one that failed; if it returns 0, then the last attempt has succeeded, and the
  -- library has just said that it is connected or a signal has come; if it fails, then
  -- `tuya_mqtt_loop` has just failed, all ten retries are used up, or a signal has come. With too
  -- little fuel for the wait it is still waiting, in a state with the same memory.
  pub connect_to_tuya-Connected :
      (t : Sys)
      → IsServing ctx v
      → At v t
      → Ends (λ r u. Connected v.trace r u × Same v u) (Same v) (connect_to_tuya env fuel t)
  unfolding connect_to_tuya sleeps attempts results
  connect_to_tuya-Connected t serving at =
      Logic.bind (of_Returns (call-Marks env at env.tuya_mqtt_connect _ (λ _. refl)))
        λ first u (k, _).
          Logic.bind (of_Returns (retry_connect-Retried env 10 2 first u k)) λ ret u1 (tried, same).
            let few = doubling-powers tried.rounds_used tried.bounded in
            elim (Bool-cases (is_zero ret)) [
              | inl ok ↦ rw ok (
                  Logic.bind (of_Returns (tell-Keeps env same _ refl)) λ _ u2 k2.
                    Logic.map-Ends
                      (wait_connected-Waited env services up ctx fuel u2
                        (IsServing-trace env services up ctx _ serving) k2)
                      (λ r u3 (waited, same'). (
                        record {
                          retries = tried.rounds_used;
                          bounded = tried.bounded;
                          slept = waited.slept ∙ (tried.slept ∙ rw few);
                          attempted = waited.attempted ∙ (tried.attempted ∙ omega arith);
                          first = first;
                          last = ret;
                          chained =
                              subst (Retries first (first ∷ results v.trace) tried.rounds_used ret)
                                (sym waited.unchanged) tried.chained;
                          connected = λ _. ok;
                          ready = waited.ready;
                          failed = λ bad. inl (waited.broken bad);
                        },
                        same',
                      ))
                      (λ u3 h. h.1))
              | inr bad ↦ rw bad (
                  Logic.bind (of_Returns (tell-Reason env same _ refl quits (tried.given_up bad)))
                    λ _ u2 (k2, why). ends (
                      record {
                        retries = tried.rounds_used;
                        bounded = tried.bounded;
                        slept = rw k2.trace (tried.slept ∙ rw few);
                        attempted = rw k2.trace (tried.attempted ∙ omega arith);
                        first = first;
                        last = ret;
                        chained = rw k2.trace tried.chained;
                        connected = λ good. cc;
                        ready = λ good. cc;
                        failed = λ _. inr why;
                      },
                      Same-of_At v k2,
                    ))
            ]
