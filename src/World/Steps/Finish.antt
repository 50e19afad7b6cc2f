-- ===== src/World/Steps/Finish.antt =====
-- When a loop that runs until a signal comes to its end: rules that count the events of a run.
use tuya_daemon.Base.{
  ℕ, ◌+◌, ◌≤◌, ◌≡◌, refl, Bool, true, false, arith, length, if◌then◌else◌, Bool-cases, inl, inr,
  Option, none, some, ◌≢◌,
}
use tuya_daemon.World.State.{Signal, Event, History, Sys, sigint, sigterm, SignalHandler}
use tuya_daemon.World.Environment.{Env}
use tuya_daemon.World.Program.{Outcome, done, exited, fault, unfinished, Cmd, and_then}
use tuya_daemon.World.Calls.{tell, call, sigaction}
use tuya_daemon.World.Steps.{is_unfinished, Walk}
use tuya_daemon.World.Steps.Invariants.{
  Armed, Arrives, note-Armed, Reach-Armed, Reach-length, note-length, installed, installed-Armed,
  installed-length,
}
use tuya_daemon.World.Logic.{Ends, Returns, ends, runs}

-- The run has come to its end.
pub record Finishes {A : Type 0} (r : Outcome A) : Type 0 where
  pub closed : is_unfinished r ≡ false

pub whole :
    {env : Env} {Allowed : Event → Type 0} {A : Type 0} {s : Sys} {r : Outcome A}
    → Walk env Allowed ⊥ s r
    → Finishes r
whole {r = r} walk = elim (Bool-cases (is_unfinished r)) [
  | inl going ↦ absurd (walk.ending going)
  | inr closed ↦ record { closed = closed }
]

module _ {A : Type 0} {s : Sys} where
  pub pure-Finishes : {a : A} → Finishes (done a s)
  pure-Finishes = record { closed = refl }

  pub if-Finishes :
      (b : Bool) (m n : Cmd A)
      → (b ≡ true → Finishes (m s))
      → (b ≡ false → Finishes (n s))
      → Finishes ((if b then m else n) s)
  if-Finishes true m n taken other = taken refl
  if-Finishes false m n other taken = taken refl

  pub option-Finishes :
      {B : Type 0} (o : Option B) (n : Cmd A) (k : B → Cmd A)
      → Finishes (n s)
      → ((b : B) → Finishes (k b s))
      → Finishes ((elim o as (λ _. Cmd A) [ none ↦ n | some b ↦ k b ]) s)
  option-Finishes none n k taken other = taken
  option-Finishes (some b) n k other taken = taken b

module _ {env : Env} {g : Signal} {moment : ℕ} (signal : Arrives env g moment) where
  -- In a state that is armed, and after a run, which only adds events.
  pub then-Finishes :
      {Allowed : Event → Type 0} {Loops A B : Type 0} {s : Sys} {r : Outcome A} {k : A → Cmd B}
      → Walk env Allowed Loops s r
      → Finishes r
      → Armed g moment s
      → ((a : A) (u : Sys)
          → Armed g moment u
          → length s.history ≤ length u.history
          → Finishes (k a u))
      → Finishes (and_then r k)
  then-Finishes {r = done a u} walk finish armed rest =
      rest a u (Reach-Armed signal walk.reach armed) (Reach-length walk.reach)
  then-Finishes {r = exited n u} walk finish armed rest = record { closed = refl }
  then-Finishes {r = fault f u} walk finish armed rest = record { closed = refl }
  then-Finishes {r = unfinished u} walk finish armed rest = record { closed = finish.closed }

  -- After a part that has no such loop.
  pub bind-Finishes :
      {Allowed : Event → Type 0} {A B : Type 0} {s : Sys} {r : Outcome A} {k : A → Cmd B}
      → Walk env Allowed ⊥ s r
      → Armed g moment s
      → ((a : A) (u : Sys)
          → Armed g moment u
          → length s.history ≤ length u.history
          → Finishes (k a u))
      → Finishes (and_then r k)
  bind-Finishes walk armed rest = then-Finishes walk (whole walk) armed rest

  -- After one event.
  pub tell-Finishes :
      {B : Type 0} {s : Sys} (e : Event) (k : Unit {0} → Cmd B)
      → Armed g moment s
      → ((u : Sys) → Armed g moment u → length u.history ≡ length s.history + 1 → Finishes (k tt u))
      → Finishes (and_then (tell env e s) k)
  unfolding tell
  tell-Finishes e k armed rest = rest _ (note-Armed signal e _ armed) (note-length env e _)

  pub call-Finishes :
      {A B : Type 0} {s : Sys} {k : A → Cmd B} (answer : History → A) (event : A → Event)
      → Armed g moment s
      → ((a : A) (u : Sys)
          → Armed g moment u
          → length u.history ≡ length s.history + 1
          → Finishes (k a u))
      → Finishes (and_then (call env answer event s) k)
  unfolding call
  call-Finishes answer event armed rest =
      rest _ _ (note-Armed signal _ _ armed) (note-length env _ _)

  -- After the two handlers have been installed, before the signal arrives.
  pub sigaction-Finishes :
      {B : Type 0} (s : Sys) (f : SignalHandler) (k : Unit {0} → Cmd B)
      → ((m n : ℕ) → f m n ≢ 1)
      → length s.history + 3 ≤ moment
      → ((u : Sys) → Armed g moment u → length s.history ≤ length u.history → Finishes (k tt u))
      → Finishes (and_then (and_then (sigaction env sigint f s) (λ _. sigaction env sigterm f)) k)
  unfolding sigaction tell
  sigaction-Finishes s f k stops late rest =
      rest (installed env f stops s) (installed-Armed env f stops s g moment late)
        (omega (arith, installed-length env f stops s))

-- A run that is not in a loop when the fuel is gone has returned.
pub Finishes-Returns :
    {A : Type 0} {Q : A → Sys → Type 0} {R : Sys → Type 0} {r : Outcome A}
    → Ends Q R r
    → Finishes r
    → Returns Q r
Finishes-Returns (ends q) finish = ends q
Finishes-Returns (runs h) finish = absurd (not_unfinished finish.closed)
  where
    not_unfinished : true ≡ false → ⊥
    not_unfinished e = cc
