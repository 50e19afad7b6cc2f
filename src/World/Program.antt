-- ===== src/World/Program.antt =====
-- The monad of the translated functions. A function runs from a state to an outcome: it returns,
-- ends the process, runs into undefined behaviour, or is still in a loop when the fuel is gone.
use tuya_daemon.Base.{ℕ, Bool, if◌then◌else◌}
use tuya_daemon.World.State.{Sys}

-- What the C standard leaves undefined, where the code can run into it.
pub data Fault : Type 0 where
  uninitialised null_deref use_after_free bad_free bad_cast out_of_bounds : Fault

pub data Outcome (A : Type 0) : Type 0 where
  done : A → Sys → Outcome A
  exited : ℕ → Sys → Outcome A
  fault : Fault → Sys → Outcome A
  unfinished : Sys → Outcome A

abbrev pub Cmd : Type 0 → Type 0
Cmd A = Sys → Outcome A

abbrev pub pure : {A : Type 0} → A → Cmd A
pure = done

module _ {A B : Type 0} where
  abbrev pub and_then : Outcome A → (A → Cmd B) → Outcome B
  and_then (done a s) k = k a s
  and_then (exited n s) k = exited n s
  and_then (fault f s) k = fault f s
  and_then (unfinished s) k = unfinished s

  infixl 5 ◌>>=◌ ◌>>◌
  abbrev pub ◌>>=◌ : Cmd A → (A → Cmd B) → Cmd B
  m >>= k = λ s. and_then (m s) k

  abbrev pub ◌>>◌ : Cmd A → Cmd B → Cmd B
  m >> n = m >>= λ _. n

abbrev pub skip : Cmd (Unit {0})
skip = done tt

-- `if (b) m` with no else.
abbrev pub when : Bool → Cmd (Unit {0}) → Cmd (Unit {0})
when b m = if b then m else skip

abbrev pub modify : (Sys → Sys) → Cmd (Unit {0})
modify f s = done tt (f s)

-- The part of a state that a function reads.
abbrev pub read : {A : Type 0} → (Sys → A) → Cmd A
read f s = done (f s) s
