-- ===== src/Openwrt/Connection/Retries.antt =====
-- connection.c: the retries of the connection.
use tuya_daemon.Base.{
  ℕ, zero, suc, ◌+◌, ◌≤◌, ◌≡◌, refl, ◌≢◌, ◌⊎◌, inl, inr, true, false, not, ◌&&◌, List, ◌++◌, ℤ,
  is_zero, arith, Bool-cases, ◌==◌, ◌∙◌,
}
use mathlib.Core.List.{append_assoc}
use tuya_daemon.World.{Event, History, Sys, Env}
use tuya_daemon.World.Logic
use tuya_daemon.World.Logic.{
  Ends, Returns, ends, runs, View, At, Keeps, marked, lifecycle, tell-Keeps, tell-Marks, call-Marks,
  of_Returns, Quits, tell-Stays, is_lifecycle,
}
use tuya_daemon.World.Trace.{
  with_trace, sleeps, attempts, results, Retries, no_more, Retries-front, doubling,
}
use tuya_daemon.Openwrt.Connection.{retry_connect}
use tuya_daemon.Openwrt.Connection.Memory.{NoDisconnect}

-- The connection is never lost.
abbrev pub StaysUp : Env → Type 0
StaysUp env = (h : History) → NoDisconnect (env.loop_callbacks h)

-- What `k` more retries have done to the trace, with the results of the loop.
pub record Retried (rounds s : ℕ) (old : List Event) (first ret : ℤ) (u : Sys) : Type 0 where
  pub rounds_used : ℕ
  pub bounded : rounds_used ≤ rounds
  pub slept : sleeps (lifecycle u.history) ≡ doubling rounds_used s ++ sleeps old
  pub attempted : attempts (lifecycle u.history) ≡ rounds_used + attempts old
  pub chained : Retries first (results old) rounds_used ret (results (lifecycle u.history))
  pub given_up : is_zero ret ≡ false → (rounds_used ≡ rounds) ⊎ (u.keep_running ≢ 1)

-- The view but for the trace.
abbrev pub Same : View → Sys → Type 0
Same v u = At (with_trace (lifecycle u.history) v) u

pub Same-of_At : (v : View) {tr : List Event} {u : Sys} → At (with_trace tr v) u → Same v u
Same-of_At v at = record {
  blocks = at.blocks;
  context = at.context;
  date_time_format = at.date_time_format;
  date_time_format_should_free = at.date_time_format_should_free;
  handlers = at.handlers;
  trace = refl;
}

failed_of : (ret : ℤ) (n : ℕ) → (not (is_zero ret) && n == 1) ≡ true → is_zero ret ≡ false
failed_of ret n h = ground arith

module _ (env : Env) where
  pub retry_connect-Retried :
      (rounds s : ℕ) (ret : ℤ) {v : View} (t : Sys)
      → At v t
      → Returns
          (λ r u. Retried rounds s v.trace ret r u × Same v u)
          (retry_connect env rounds s ret t)
  unfolding retry_connect doubling sleeps attempts results
  retry_connect-Retried zero s ret {v} t at = ends (
    record {
      rounds_used = 0;
      bounded = omega arith;
      slept = rw at.trace;
      attempted = rw at.trace (omega arith);
      chained = rw at.trace no_more;
      given_up = λ _. inl refl;
    },
    Same-of_At v at,
  )
  retry_connect-Retried (suc rounds) s ret {v} t at =
      elim (Bool-cases (not (is_zero ret) && t.keep_running == 1)) [
        | inr stop ↦ rw stop (
            ends (
              record {
                rounds_used = 0;
                bounded = omega arith;
                slept = rw at.trace;
                attempted = rw at.trace (omega arith);
                chained = rw at.trace no_more;
                given_up = λ bad. inr (ground arith);
              },
              Same-of_At v at,
            ))
        | inl go ↦ rw go (
            Logic.bind (tell-Keeps env at _ refl) λ _ u k.
              Logic.bind (tell-Marks env k _ refl) λ _ u1 k1.
                Logic.bind (call-Marks env k1 env.tuya_mqtt_connect _ (λ _. refl))
                  λ ret' u2 (k2, _).
                    Logic.mono (retry_connect-Retried rounds _ ret' u2 k2) λ r u3 (done, same). (
                      record {
                        rounds_used = suc done.rounds_used;
                        bounded = omega arith;
                        slept = done.slept ∙ rw append_assoc;
                        attempted = done.attempted ∙ omega arith;
                        chained = Retries-front (failed_of ret t.keep_running go) done.chained;
                        given_up = λ bad. elim (done.given_up bad) [
                          | inl e ↦ inl (omega arith)
                          | inr stopped ↦ inr stopped
                        ];
                      },
                      same,
                    ))
      ]
