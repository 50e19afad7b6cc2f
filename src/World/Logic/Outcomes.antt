-- ===== src/World/Logic/Outcomes.antt =====
-- Postconditions of runs, with a rule for sequencing.
use tuya_daemon.World.State.{Sys}
use tuya_daemon.World.Program.{Outcome, done, unfinished, Cmd, and_then}

-- A run that neither faults nor ends the process: it returns with `Q`, or it is still in a loop,
-- in a state with `R`.
pub data Ends {A : Type 0} (Q : A → Sys → Type 0) (R : Sys → Type 0) : Outcome A → Type 0 where
  ends : {a : A} {s : Sys} → Q a s → Ends Q R (done a s)
  runs : {s : Sys} → R s → Ends Q R (unfinished s)

-- A run that returns.
abbrev pub Returns : {A : Type 0} → (A → Sys → Type 0) → Outcome A → Type 0
Returns Q = Ends Q (λ _. ⊥)

module _ {A : Type 0} {P : A → Sys → Type 0} {R : Sys → Type 0} where
  pub bind :
      {B : Type 0} {Q : B → Sys → Type 0} {r : Outcome A} {k : A → Cmd B}
      → Ends P R r
      → ((a : A) (s : Sys) → P a s → Ends Q R (k a s))
      → Ends Q R (and_then r k)
  bind (ends p) next = next _ _ p
  bind (runs h) next = runs h

  pub mono :
      {Q : A → Sys → Type 0} {r : Outcome A}
      → Ends P R r
      → ((a : A) (s : Sys) → P a s → Q a s)
      → Ends Q R r
  mono (ends p) weaken = ends (weaken _ _ p)
  mono (runs h) weaken = runs h

  pub map-Ends :
      {Q : A → Sys → Type 0} {R' : Sys → Type 0} {r : Outcome A}
      → Ends P R r
      → ((a : A) (s : Sys) → P a s → Q a s)
      → ((s : Sys) → R s → R' s)
      → Ends Q R' r
  map-Ends (ends p) weaken keep = ends (weaken _ _ p)
  map-Ends (runs h) weaken keep = runs (keep _ h)

  -- A run that returns is one that ends.
  pub of_Returns : {r : Outcome A} → Returns P r → Ends P R r
  of_Returns (ends p) = ends p
  of_Returns (runs h) = absurd h
