-- ===== src/Host/Main/Lives.antt =====
-- tuya_daemon/main.c from its start to its end, for every command line: the process that goes into
-- the background leaves its parents behind.
use tuya_daemon.Base.{ℕ, ◌≡◌, refl, Bool, true, false, not, List, String, ℤ, pos, if◌then◌else◌}
use tuya_daemon.World.{
  Event, Sys, Env, literal, Cmd, Outcome, done, exited, unfinished, and_then, pure,
}
use tuya_daemon.World.Logic
use tuya_daemon.World.Logic.{
  Ends, Returns, ends, runs, of_Returns, View, At, lifecycle, tell-Keeps, call-Keeps, Quits,
}
use tuya_daemon.World.Steps.Install.{both_Quits, handlers-Installed}
use tuya_daemon.Host.Args.{argp_ok, argp_err_unknown, parse_opt}
use tuya_daemon.Host.Daemon.{
  Forked, fork_failed, in_child, in_parent, forked, is_minus_one, equals, redirect, leave_session,
  become_daemon,
}
use tuya_daemon.Host.Connection.Format.{ValidJson}
use tuya_daemon.Host.Connection.Report.{Clock}
use tuya_daemon.Host.Main.{
  ArgpOutcome, argp_returns, argp_exits, after_argp, ArgpParse, no_args, signal_handler,
  set_up_signal_handler, main,
}
use tuya_daemon.Host.Main.Loop.{GoesOn}
use tuya_daemon.Host.Main.Whole.{Ended, refused, opened-Ends}
use tuya_daemon.Host.Walks.Run.{asks_daemon, stops}

-- `become_daemon` returns, or it ends a process that has a child; nothing else is touched.
pub data Splits (v : View) : Outcome ℤ → Type 0 where
  stays : {r : ℤ} {u : Sys} → At v u → Splits v (done r u)
  leaves : {u : Sys} → At v u → Splits v (exited 0 u)

forked-Splits :
    {v : View} {s : Sys} (f : Forked) (m n k : Cmd ℤ)
    → Splits v (m s)
    → Splits v (n s)
    → Splits v (k s)
    → Splits v ((elim f as (λ _. Cmd ℤ) [ fork_failed ↦ m | in_child ↦ n | in_parent ↦ k ]) s)
forked-Splits fork_failed m n k a b c = a
forked-Splits in_child m n k a b c = b
forked-Splits in_parent m n k a b c = c

if-Splits :
    {v : View} {s : Sys} (b : Bool) (m n : Cmd ℤ)
    → Splits v (m s)
    → Splits v (n s)
    → Splits v ((if b then m else n) s)
if-Splits true m n a b = a
if-Splits false m n a b = b

next-Splits :
    {A : Type 0} {P : A → Sys → Type 0} {v : View} {r : Outcome A} {k : A → Cmd ℤ}
    → Returns P r
    → ((a : A) (u : Sys) → P a u → Splits v (k a u))
    → Splits v (and_then r k)
next-Splits (ends p) rest = rest _ _ p
next-Splits (runs h) rest = absurd h

module _ (env : Env) {v : View} where
  redirect-Splits : {t : Sys} → At v t → Splits v (redirect env t)
  unfolding redirect
  redirect-Splits at = next-Splits (tell-Keeps env at _ refl) λ _ u k.
      next-Splits (call-Keeps env k env.open_null _ (λ _. refl)) λ stdin u1 (k1, _).
        if-Splits (not (equals stdin 0)) _ _ (stays k1) (
          next-Splits (call-Keeps env k1 env.dup _ (λ _. refl)) λ stdout u2 (k2, _).
            if-Splits (not (equals stdout 1)) _ _ (stays k2) (
              next-Splits (call-Keeps env k2 env.dup _ (λ _. refl))
                λ stderr u3 (k3, _). if-Splits (not (equals stderr 2)) _ _ (stays k3) (stays k3)))

  leave_session-Splits : {t : Sys} → At v t → Splits v (leave_session env t)
  unfolding leave_session
  leave_session-Splits at = next-Splits (call-Keeps env at env.fork _ (λ _. refl)) λ pid u (k, _).
      forked-Splits (forked pid) _ _ _ (stays k)
        (next-Splits (tell-Keeps env k _ refl)
          λ _ u1 k1. next-Splits (tell-Keeps env k1 _ refl) λ _ u2 k2. redirect-Splits k2)
        (leaves k)

  become_daemon-Splits : {t : Sys} → At v t → Splits v (become_daemon env t)
  unfolding become_daemon
  become_daemon-Splits at = next-Splits (call-Keeps env at env.fork _ (λ _. refl)) λ pid u (k, _).
      forked-Splits (forked pid) _ _ _ (next-Splits (tell-Keeps env k _ refl) λ _ u1 k1. stays k1)
        (next-Splits (call-Keeps env k env.setsid _ (λ _. refl))
          λ sid u1 (k1, _). if-Splits (is_minus_one sid) _ _ (stays k1) (leave_session-Splits k1))
        (leaves k)

-- The ways of a process that runs `main`: `argp_parse` ends it with a status of its own; the parent of a fork exits with the status 0, if a
-- background process was asked for; any other ends as without the fork, or it is in its main loop.
pub data Lives (o : ArgpOutcome) (bs : List ℕ) (old : List Event) : Outcome ℤ → Type 0 where
  argp_ended :
      {n : ℕ} {u : Sys}
      → o ≡ argp_exits n
      → u.blocks ≡ bs
      → lifecycle u.history ≡ old
      → Lives o bs old (exited n u)
  parent :
      {u : Sys}
      → asks_daemon o ≡ true
      → u.blocks ≡ bs
      → lifecycle u.history ≡ old
      → Lives o bs old (exited 0 u)
  ended : {r : ℤ} {u : Sys} → Ended bs old r u → Lives o bs old (done r u)
  serving : {u : Sys} → GoesOn bs u → Lives o bs old (unfinished u)

of_Ends :
    {o : ArgpOutcome} {bs : List ℕ} {old : List Event} {r : Outcome ℤ}
    → Ends (Ended bs old) (GoesOn bs) r
    → Lives o bs old r
of_Ends (ends e) = ended e
of_Ends (runs g) = serving g

after_split :
    {o : ArgpOutcome} {v : View} {r : Outcome ℤ} {k : ℤ → Cmd ℤ}
    → asks_daemon o ≡ true
    → Splits v r
    → ((a : ℤ) (u : Sys) → At v u → Ends (Ended v.blocks v.trace) (GoesOn v.blocks) (k a u))
    → Lives o v.blocks v.trace (and_then r k)
after_split background (stays at) rest = of_Ends (rest _ _ at)
after_split background (leaves at) rest = parent background at.blocks at.trace

daemon-Lives :
    (env : Env) {o : ArgpOutcome} (asked : Bool) {v : View} {t : Sys} (k : ℤ → Cmd ℤ)
    → asks_daemon o ≡ asked
    → At v t
    → ((a : ℤ) (u : Sys) → At v u → Ends (Ended v.blocks v.trace) (GoesOn v.blocks) (k a u))
    → Lives o v.blocks v.trace (and_then ((if asked then become_daemon env else pure (pos 0)) t) k)
daemon-Lives env true k asks at rest = after_split asks (become_daemon-Splits env at) rest
daemon-Lives env false k asks at rest = of_Ends (rest (pos 0) _ at)

next_Lives :
    {A : Type 0} {P : A → Sys → Type 0} {o : ArgpOutcome} {bs : List ℕ} {old : List Event}
    {r : Outcome A} {k : A → Cmd ℤ}
    → Returns P r
    → ((a : A) (u : Sys) → P a u → Lives o bs old (k a u))
    → Lives o bs old (and_then r k)
next_Lives (ends p) rest = rest _ _ p
next_Lives (runs h) rest = absurd h

module _ (env : Env) (clock : Clock env) (valid : ValidJson env) (parse : ArgpParse) where
  after_parse-Lives :
      (fuel : ℕ) (o : ArgpOutcome) {v : View} (t : Sys) (text : String)
      → v.date_time_format ≡ literal text
      → v.date_time_format_should_free ≡ false
      → Quits v.handlers
      → At v t
      → Lives o v.blocks v.trace (after_argp env fuel o t)
  unfolding after_argp
  after_parse-Lives fuel (argp_exits n) t text format flag quits at =
      argp_ended refl at.blocks at.trace
  after_parse-Lives fuel (argp_returns argp_err_unknown a) t text format flag quits at =
      of_Ends (
        Logic.bind (of_Returns (tell-Keeps env at _ refl)) λ _ u k. ends (refused k.blocks k.trace))
  after_parse-Lives fuel (argp_returns argp_ok a) t text format flag quits at =
      daemon-Lives env a.become_daemon _ refl at
        λ d u k. opened-Ends env clock valid fuel a d u text format flag quits k

  -- Conditions: `strftime` and the JSON texts are as the code expects, and the format of the time
  -- is a constant whose flag is not set. Then, for every command line and with every fuel, `main`
  -- of the PC daemon runs without undefined behaviour, in one of four ways. `argp_parse` ends the
  -- process, as it does for --help and for a wrong option, with the status that it chooses, the
  -- live blocks of before and no call in its lifecycle. Or the process exits with the status 0,
  -- which otherwise happens only if the command line asks for a background process, with the live
  -- blocks of before and no call in its lifecycle. Or it returns, with the live blocks of before:
  -- EXIT_FAILURE with no call in its lifecycle, EXIT_FAILURE with `tuya_mqtt_init` failed as its
  -- only lifecycle call, or with the library disconnected and then deinitialised as the last
  -- lifecycle calls. Or the fuel is used up in the main loop, with fewer than ten rounds in a row
  -- whose report has failed.
  pub main-Lives :
      (fuel : ℕ) (s : Sys) (text : String)
      → s.date_time_format ≡ literal text
      → s.date_time_format_should_free ≡ false
      → Lives (parse parse_opt no_args) s.blocks (lifecycle s.history) (main env parse fuel s)
  unfolding main set_up_signal_handler
  main-Lives fuel s text format flag =
      next_Lives (handlers-Installed env signal_handler s) λ _ b (k, _).
        after_parse-Lives fuel (parse parse_opt no_args) b text format flag
          (both_Quits signal_handler s.handlers stops) k
