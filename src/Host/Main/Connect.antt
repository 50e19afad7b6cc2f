-- ===== src/Host/Main/Connect.antt =====
-- tuya_daemon/main.c: how `connect_to_tuya` retries and settles.
use mathlib.Core.List.{append_assoc}
use tuya_daemon.Base.{
  ◌∷◌, subst, sym, ℕ, zero, suc, ◌+◌, ◌≤◌, ◌≡◌, refl, ◌≢◌, ◌⊎◌, inl, inr, true, false, not, ◌&&◌,
  List, ◌++◌, ℤ, is_zero, arith, Bool-cases, ◌==◌, ◌∙◌, ap,
}
use tuya_daemon.World.{Event, Sys, Env}
use tuya_daemon.World.Logic
use tuya_daemon.World.Logic.{Returns, ends}
use tuya_daemon.World.Trace.{
  sleeps, attempts, results, Retries, no_more, Retries-front, loops, powers, doubling,
  doubling-powers, loop_failed, streak,
}
use tuya_daemon.Host.Connection.Format.{ValidJson}
use tuya_daemon.Host.Connection.Report.{Clock}
use tuya_daemon.Host.Main.{retry_connect, settle, connect_to_tuya}
use tuya_daemon.Host.Main.Serving.{
  Serving, tell-Serving, tell-Reason, mark-Serving, call-Serving, tuya_mqtt_loop-Serving,
}

-- What some rounds of the first loop have done.
record Retried (bs : List ℕ) (rounds s : ℕ) (old : List Event) (first ret : ℤ) (u : Sys)
    : Type 0 where
  trace : List Event
  serving : Serving bs trace u
  retries : ℕ
  bounded : retries ≤ rounds
  slept : sleeps trace ≡ doubling retries s ++ sleeps old
  attempted : attempts trace ≡ retries + attempts old
  looped : loops trace ≡ loops old
  unbroken : streak old ≡ 0 → streak trace ≡ 0
  chained : Retries first (results old) retries ret (results trace)
  given_up : is_zero ret ≡ false → (retries ≡ rounds) ⊎ (u.keep_running ≢ 1)

-- What some rounds of the second loop have done.
record Looped (bs : List ℕ) (rounds : ℕ) (old : List Event) (ret : ℤ) (u : Sys) : Type 0 where
  trace : List Event
  serving : Serving bs trace u
  slept : sleeps trace ≡ sleeps old
  attempted : attempts trace ≡ attempts old
  unchanged : results trace ≡ results old
  bounded : loops trace ≤ rounds + loops old
  ready : is_zero ret ≡ true → (loops trace ≡ rounds + loops old) ⊎ (u.keep_running ≢ 1)
  failed : is_zero ret ≡ false → loop_failed trace ≡ true
  unbroken : streak old ≡ 0 → streak trace ≡ 0

-- How `connect_to_tuya` ends, from the trace that it started with.
pub record Settles (bs : List ℕ) (old : List Event) (ret : ℤ) (u : Sys) : Type 0 where
  pub trace : List Event
  pub serving : Serving bs trace u
  pub retries : ℕ
  pub bounded : retries ≤ 10
  pub slept : sleeps trace ≡ powers retries ++ sleeps old
  pub attempted : attempts trace ≡ retries + 1 + attempts old
  pub looped : loops trace ≤ 5 + loops old
  -- Every attempt but the first comes after one that failed.
  pub first : ℤ
  pub last : ℤ
  pub chained : Retries first (first ∷ results old) retries last (results trace)
  pub connected : is_zero ret ≡ true → is_zero last ≡ true
  pub unbroken : streak trace ≡ 0
  pub ready : is_zero ret ≡ true → (loops trace ≡ 5 + loops old) ⊎ (u.keep_running ≢ 1)
  pub failed :
      is_zero ret ≡ false → (loop_failed trace ≡ true) ⊎ ((retries ≡ 10) ⊎ (u.keep_running ≢ 1))

failed_of : (ret : ℤ) (n : ℕ) → (not (is_zero ret) && n == 1) ≡ true → is_zero ret ≡ false
failed_of ret n h = ground arith

not_running : (n : ℕ) → (n == 1) ≡ false → n ≢ 1
not_running n h e = ground arith

module _ (env : Env) {bs : List ℕ} where
  retry_connect-Retried :
      (rounds s : ℕ) (ret : ℤ) {tr : List Event} (t : Sys)
      → Serving bs tr t
      → Returns (Retried bs rounds s tr ret) (retry_connect env rounds s ret t)
  unfolding retry_connect doubling sleeps attempts results loops streak
  retry_connect-Retried zero s ret {tr} t serving = ends record {
    trace = tr;
    serving = serving;
    retries = 0;
    bounded = omega arith;
    slept = refl;
    attempted = omega arith;
    looped = refl;
    unbroken = λ z. z;
    chained = no_more;
    given_up = λ _. inl refl;
  }
  retry_connect-Retried (suc rounds) s ret {tr} t serving =
      elim (Bool-cases (not (is_zero ret) && t.keep_running == 1)) [
        | inr stop ↦ rw stop (
            ends record {
              trace = tr;
              serving = serving;
              retries = 0;
              bounded = omega arith;
              slept = refl;
              attempted = omega arith;
              looped = refl;
              unbroken = λ z. z;
              chained = no_more;
              given_up = λ bad. inr (ground arith);
            })
        | inl go ↦ rw go (
            Logic.bind (tell-Serving env serving _ refl) λ _ u k.
              Logic.bind (mark-Serving env k _ refl) λ _ u1 (k1, _).
                Logic.bind (call-Serving env k1 env.tuya_mqtt_connect _ (λ _. refl)) λ ret' u2 k2.
                  Logic.mono (retry_connect-Retried rounds _ ret' u2 k2) λ r u3 done. record {
                    trace = done.trace;
                    serving = done.serving;
                    retries = suc done.retries;
                    bounded = omega arith;
                    slept = done.slept ∙ rw append_assoc;
                    attempted = done.attempted ∙ omega arith;
                    looped = done.looped;
                    unbroken = λ z. done.unbroken refl;
                    chained = Retries-front (failed_of ret t.keep_running go) done.chained;
                    given_up = λ bad. elim (done.given_up bad) [
                      | inl e ↦ inl (omega arith)
                      | inr stopped ↦ inr stopped
                    ];
                  })
      ]

module _ (env : Env) (clock : Clock env) (valid : ValidJson env) {bs : List ℕ} where
  settle-Looped :
      (rounds : ℕ) {tr : List Event} (t : Sys)
      → Serving bs tr t
      → Returns (Looped bs rounds tr) (settle env rounds t)
  unfolding settle sleeps attempts results loops streak
  settle-Looped zero {tr} t s = ends record {
    trace = tr;
    serving = s;
    slept = refl;
    attempted = refl;
    unchanged = refl;
    bounded = omega arith;
    ready = λ _. inl (omega arith);
    failed = λ bad. cc;
    unbroken = λ z. z;
  }
  settle-Looped (suc rounds) {tr} t s = elim (Bool-cases (t.keep_running == 1)) [
    | inr stop ↦ rw stop (
        ends record {
          trace = tr;
          serving = s;
          slept = refl;
          attempted = refl;
          unchanged = refl;
          bounded = omega arith;
          ready = λ _. inr (not_running t.keep_running stop);
          failed = λ bad. cc;
          unbroken = λ z. z;
        })
    | inl go ↦ rw go (
        Logic.bind (tuya_mqtt_loop-Serving env clock valid t s) λ ret u k.
          elim (Bool-cases (is_zero ret)) [
            | inr broken ↦ rw broken (
                Logic.bind (tell-Serving env k _ refl) λ _ u1 k1. ends record {
                  trace = _;
                  serving = k1;
                  slept = refl;
                  attempted = refl;
                  unchanged = refl;
                  bounded = omega arith;
                  ready = λ good. cc;
                  failed = λ _. rw broken refl;
                  unbroken = λ z. refl;
                })
            | inl ok ↦ rw ok (
                Logic.mono (settle-Looped rounds u k) λ r u1 done. record {
                  trace = done.trace;
                  serving = done.serving;
                  slept = done.slept;
                  attempted = done.attempted;
                  unchanged = done.unchanged;
                  bounded = omega (arith, done.bounded);
                  ready = λ good. elim (done.ready good) [
                    | inl e ↦ inl (omega arith)
                    | inr stopped ↦ inr stopped
                  ];
                  failed = done.failed;
                  unbroken = λ z. done.unbroken refl;
                })
          ])
  ]

  -- Conditions: `strftime` and the JSON texts are as the code expects, the format of the time is a
  -- constant or a heap block with the flag set, the configuration is the one of `init_tuya`, and
  -- every installed signal handler clears `keep_running`. Then `connect_to_tuya` returns, whatever
  -- callbacks the library runs, without undefined behaviour, and the format is owned as before; it
  -- has retried the connection k times, for a k of at most 10, after sleeps of 2, 4, ..., 2 ^ k
  -- seconds, so that it has tried k + 1 times, every attempt but the first comes after one that
  -- failed, and it has called `tuya_mqtt_loop` at most five times; if it returns 0, then the last
  -- attempt has succeeded, and it has called `tuya_mqtt_loop` exactly five times, unless a signal
  -- has come; if it fails, then the last `tuya_mqtt_loop` has failed, all ten retries are used up,
  -- or a signal has come.
  pub connect_to_tuya-Settles :
      {tr : List Event} (t : Sys)
      → Serving bs tr t
      → Returns (Settles bs tr) (connect_to_tuya env t)
  unfolding connect_to_tuya sleeps attempts results loops streak
  connect_to_tuya-Settles {tr} t s =
      Logic.bind (call-Serving env s env.tuya_mqtt_connect _ (λ _. refl)) λ first u k.
        Logic.bind (retry_connect-Retried env 10 2 first u k) λ ret u1 tried.
          let few = doubling-powers tried.retries tried.bounded in
          elim (Bool-cases (is_zero ret)) [
            | inl ok ↦ rw ok (
                Logic.bind (tell-Serving env tried.serving _ refl) λ _ u2 k2.
                  Logic.mono (settle-Looped 5 u2 k2) λ r u3 done. record {
                    trace = done.trace;
                    serving = done.serving;
                    retries = tried.retries;
                    bounded = tried.bounded;
                    slept = done.slept ∙ (tried.slept ∙ rw few);
                    attempted = done.attempted ∙ (tried.attempted ∙ omega arith);
                    looped = omega (arith, done.bounded, tried.looped);
                    first = first;
                    last = ret;
                    chained =
                        subst (Retries first (first ∷ results tr) tried.retries ret)
                          (sym done.unchanged) tried.chained;
                    connected = λ _. ok;
                    unbroken = done.unbroken (tried.unbroken refl);
                    ready = λ good. elim (done.ready good) [
                      | inl e ↦ inl (e ∙ ap (λ (n : ℕ). 5 + n) tried.looped)
                      | inr stopped ↦ inr stopped
                    ];
                    failed = λ bad. inl (done.failed bad);
                  })
            | inr bad ↦ rw bad (
                Logic.bind (tell-Reason env tried.serving _ refl (tried.given_up bad))
                  λ _ u2 (k2, why). ends record {
                    trace = tried.trace;
                    serving = k2;
                    retries = tried.retries;
                    bounded = tried.bounded;
                    slept = tried.slept ∙ rw few;
                    attempted = tried.attempted ∙ omega arith;
                    looped = omega (arith, tried.looped);
                    first = first;
                    last = ret;
                    chained = tried.chained;
                    connected = λ good. cc;
                    unbroken = tried.unbroken refl;
                    ready = λ good. cc;
                    failed = λ _. inr why;
                  })
          ]
