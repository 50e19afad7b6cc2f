-- ===== src/World/Steps/Fresh.antt =====
-- The next address of the heap only grows.
use tuya_daemon.World.Steps.Invariants.{Adds, Reach-Adds}
use tuya_daemon.Base.{◌≤◌, ◌≡◌, arith}
use tuya_daemon.World.State.{Event, Sys}
use tuya_daemon.World.Environment.{Env}
use tuya_daemon.World.Calls.{note}
use tuya_daemon.World.Steps.{
  Step, happen, release, handle, configure, format, Reach, here, next, Walk,
}
use tuya_daemon.World.Logic.{Returns, ends, runs}
use tuya_daemon.World.Program.{Outcome}

pub note-fresh : (env : Env) (e : Event) (s : Sys) → (note env e s).fresh ≡ s.fresh
unfolding note
note-fresh env e s = ground arith

Step-fresh :
    {env : Env} {Allowed : Event → Type 0} {s t : Sys} → Step env Allowed s t → s.fresh ≤ t.fresh
Step-fresh {env} (happen e h) = omega (arith, note-fresh env e _)
Step-fresh {env} Step.allocate = omega (arith, note-fresh env _ _)
Step-fresh {env} (release a h) = omega (arith, note-fresh env _ _)
Step-fresh (handle g f h) = omega arith
Step-fresh (configure c) = omega arith
Step-fresh (format flag p) = omega arith

-- The next address only grows.
pub Reach-fresh :
    {env : Env} {Allowed : Event → Type 0} {s t : Sys} → Reach env Allowed s t → s.fresh ≤ t.fresh
Reach-fresh here = omega arith
Reach-fresh (next p step) = omega (arith, Reach-fresh p, Step-fresh step)

-- What is known of a run's end, and that its steps lead there.
pub Returns-fresh :
    {env : Env} {Allowed : Event → Type 0} {A : Type 0} {Q : A → Sys → Type 0} {s : Sys}
    {r : Outcome A}
    → Walk env Allowed ⊥ s r
    → Returns Q r
    → Returns (λ a u. Q a u × (s.fresh ≤ u.fresh)) r
Returns-fresh walk (ends q) = ends (q, Reach-fresh walk.reach)
Returns-fresh walk (runs h) = absurd h

pub Returns-Adds :
    {env : Env} {Allowed : Event → Type 0} {A : Type 0} {Q : A → Sys → Type 0} {s : Sys}
    {r : Outcome A}
    → Walk env Allowed ⊥ s r
    → Returns Q r
    → Returns (λ a u. Q a u × Adds (λ _. Unit) s.history u.history) r
Returns-Adds walk (ends q) = ends (q, Reach-Adds (λ _ _. tt) (λ _. tt) (λ _. tt) walk.reach)
Returns-Adds walk (runs h) = absurd h
