-- ===== src/World/Steps/Install.antt =====
-- The two calls that install a handler for each signal.
use tuya_daemon.Base.{ℕ, ◌≤◌, ◌≢◌, refl, Option, arith, ap, ◌∙◌, some-injective}
use tuya_daemon.World.State.{Event, Sys, SignalHandler, Signal, sigint, sigterm}
use tuya_daemon.World.Environment.{Env}
use tuya_daemon.World.Program.{and_then}
use tuya_daemon.World.Calls.{sigaction, install, tell}
use tuya_daemon.World.Logic
use tuya_daemon.World.Logic.{Returns, ends, View, At, At-note, At-view, view, Quits}
use tuya_daemon.World.Steps.Fresh.{note-fresh}

le_trans : {a b c : ℕ} → a ≤ b → b ≤ c → a ≤ c
le_trans p q = omega arith

pub both_Quits :
    (f : SignalHandler) (hs : Signal → Option SignalHandler)
    → ((m n : ℕ) → f m n ≢ 1)
    → Quits (install sigterm f (install sigint f hs))
both_Quits f hs stops sigint f' e m n stop =
    stops m n (ap (λ (k : SignalHandler). k m n) (some-injective _ _ e) ∙ stop)
both_Quits f hs stops sigterm f' e m n stop =
    stops m n (ap (λ (k : SignalHandler). k m n) (some-injective _ _ e) ∙ stop)

At-handlers :
    {v : View} {t : Sys} (g : Signal) (f : SignalHandler)
    → At v t
    → At
        (record v { handlers = install g f v.handlers })
        (record t { handlers = install g f t.handlers })
At-handlers g f at = record {
  blocks = at.blocks;
  context = at.context;
  date_time_format = at.date_time_format;
  date_time_format_should_free = at.date_time_format_should_free;
  handlers = ap (install g f) at.handlers;
  trace = at.trace;
}

module _ (env : Env) {v : View} {t : Sys} (at : At v t) where
  sigaction-Installs :
      (g : Signal) (f : SignalHandler)
      → Returns
          (λ _ u. At (record v { handlers = install g f v.handlers }) u × (t.fresh ≤ u.fresh))
          (sigaction env g f t)
  unfolding sigaction tell
  sigaction-Installs g f = ends (
    At-note env (Event.sigaction g) refl (At-handlers g f at),
    omega (
      arith,
      note-fresh env (Event.sigaction g) (record t { handlers = install g f t.handlers }),
    ),
  )

-- The handlers after both calls.
abbrev pub both : SignalHandler → (Signal → Option SignalHandler) → Signal → Option SignalHandler
both f hs = install sigterm f (install sigint f hs)

pub handlers-Installed :
    (env : Env) (f : SignalHandler) (s : Sys)
    → Returns
        (λ _ u. At (record (view s) { handlers = both f s.handlers }) u × (s.fresh ≤ u.fresh))
        (and_then (sigaction env sigint f s) (λ _. sigaction env sigterm f))
handlers-Installed env f s =
    Logic.bind (sigaction-Installs env (At-view s) sigint f) λ _ a (ka, fa).
      Logic.mono (sigaction-Installs env ka sigterm f) λ _ b (kb, fb). (kb, le_trans fa fb)
