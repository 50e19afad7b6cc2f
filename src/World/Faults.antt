-- ===== src/World/Faults.antt =====
-- Runs that end in undefined behaviour.
use tuya_daemon.World.State.{Sys}
use tuya_daemon.World.Program.{Outcome, fault, Fault, and_then}
use tuya_daemon.World.Logic.{Returns, ends, runs}

-- A run that ends in undefined behaviour.
pub data Faults {A : Type 0} (f : Fault) : Outcome A → Type 0 where
  faults : {s : Sys} → Faults f (fault f s)

-- A run that returns first, and then faults.
pub after :
    {A B : Type 0} {P : A → Sys → Type 0} {r : Outcome A} {k : A → Sys → Outcome B} {f : Fault}
    → Returns P r
    → ((a : A) (s : Sys) → P a s → Faults f (k a s))
    → Faults f (and_then r k)
after (ends p) next = next _ _ p
after (runs h) next = absurd h

-- A fault is not caught.
pub through :
    {A B : Type 0} {r : Outcome A} {f : Fault} (k : A → Sys → Outcome B)
    → Faults f r
    → Faults f (and_then r k)
through k faults = faults
