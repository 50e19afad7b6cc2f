-- ===== src/World/Steps.antt =====
-- A run as a sequence of steps: what one call out of the process may do to its state. Every state
-- that a run of the program passes its end in, whatever its outcome, is reached by such steps.
pub mod Invariants
pub mod Fresh
pub mod Finish
pub mod Install
pub mod Prompt
pub mod Rounds
pub mod Reports
pub mod Refused
use tuya_daemon.Base.{
  ℕ, ◌+◌, ◌≡◌, refl, ◌≢◌, Bool, true, false, Option, none, some, List, [], ◌∷◌, String, member,
  remove, if◌then◌else◌, ◌==◌, Bool-cases, inl, inr,
}
use tuya_daemon.World.State.{
  Signal, SignalHandler, CharPtr, unset, null, literal, block, Context, Event, History, Sys,
}
use tuya_daemon.World.Environment.{Env}
use tuya_daemon.World.Program.{
  Outcome, done, exited, fault, unfinished, Fault, Cmd, and_then, when, skip, modify, ◌>>=◌, ◌>>◌,
}
use tuya_daemon.World.Calls.{
  install, note, call, tell, sigaction, malloc, free_block, free, deref, touch, lend, strdup,
}

-- The state in which a run ends.
abbrev pub final : {A : Type 0} → Outcome A → Sys
final (done a s) = s
final (exited n s) = s
final (fault f s) = s
final (unfinished s) = s

-- One step, whose event is allowed. A handler that is installed makes the main loops stop.
pub data Step (env : Env) (Allowed : Event → Type 0) (s : Sys) : Sys → Type 0 where
  happen : (e : Event) → Allowed e → Step env Allowed s (note env e s)
  allocate : Step env Allowed s (
      note env
        (Event.malloc s.fresh)
        (record s { blocks = s.fresh ∷ s.blocks; fresh = s.fresh + 1 }))
  release :
      (a : ℕ)
      → member a s.blocks ≡ true
      → Step env Allowed s (note env (Event.free a) (record s { blocks = remove a s.blocks }))
  handle :
      (g : Signal) (f : SignalHandler)
      → ((m n : ℕ) → f m n ≢ 1)
      → Step env Allowed s (record s { handlers = install g f s.handlers })
  configure : (c : Context) → Step env Allowed s (record s { context = c })
  format :
      (flag : Bool) (p : CharPtr)
      → Step env Allowed s (record s { date_time_format_should_free = flag; date_time_format = p })

pub data Reach (env : Env) (Allowed : Event → Type 0) (s : Sys) : Sys → Type 0 where
  here : Reach env Allowed s s
  next : {t u : Sys} → Reach env Allowed s t → Step env Allowed t u → Reach env Allowed s u

module _ {env : Env} {Allowed : Event → Type 0} where
  pub Reach-trans :
      {s t u : Sys} → Reach env Allowed s t → Reach env Allowed t u → Reach env Allowed s u
  Reach-trans p here = p
  Reach-trans p (next q step) = next (Reach-trans p q) step

module _ {env : Env} {Allowed Allowed' : Event → Type 0}
    (weaken : (e : Event) → Allowed e → Allowed' e) where
  map-Step : {s t : Sys} → Step env Allowed s t → Step env Allowed' s t
  map-Step (happen e h) = happen e (weaken e h)
  map-Step Step.allocate = Step.allocate
  map-Step (release a h) = release a h
  map-Step (handle g f h) = handle g f h
  map-Step (configure c) = configure c
  map-Step (format flag p) = format flag p

  map-Reach : {s t : Sys} → Reach env Allowed s t → Reach env Allowed' s t
  map-Reach here = here
  map-Reach (next p step) = next (map-Reach p) (map-Step step)

abbrev pub is_unfinished : {A : Type 0} → Outcome A → Bool
is_unfinished (unfinished s) = true
is_unfinished _ = false

-- A run from `s` with the outcome `r` ends in a state that is reached, and it comes to an end
-- unless `Loops`.
pub record Walk (env : Env) (Allowed : Event → Type 0) (Loops : Type 0) {A : Type 0} (s : Sys)
    (r : Outcome A) : Type 0 where
  pub reach : Reach env Allowed s (final r)
  pub ending : is_unfinished r ≡ true → Loops

pub map-Walk :
    {env : Env} {Allowed Allowed' : Event → Type 0} {Loops A : Type 0} {s : Sys} {r : Outcome A}
    → ((e : Event) → Allowed e → Allowed' e)
    → Walk env Allowed Loops s r
    → Walk env Allowed' Loops s r
map-Walk weaken walk = record { reach = map-Reach weaken walk.reach; ending = walk.ending }

module _ {env : Env} {Allowed : Event → Type 0} {Loops : Type 0} {A : Type 0} {s : Sys} where
  pub pure-Walk : {a : A} → Walk env Allowed Loops s (done a s)
  pure-Walk = record { reach = here; ending = λ e. absurd (cc) }

  pub fault-Walk : {f : Fault} → Walk env Allowed Loops {A = A} s (fault f s)
  fault-Walk = record { reach = here; ending = λ e. absurd (cc) }

  pub exited-Walk : {n : ℕ} → Walk env Allowed Loops {A = A} s (exited n s)
  exited-Walk = record { reach = here; ending = λ e. absurd (cc) }

  pub unfinished-Walk : Loops → Walk env Allowed Loops {A = A} s (unfinished s)
  unfinished-Walk loops = record { reach = here; ending = λ _. loops }

  pub step : {t : Sys} {a : A} → Reach env Allowed s t → Walk env Allowed Loops s (done a t)
  step path = record { reach = path; ending = λ e. absurd (cc) }

  pub if-Walk :
      (b : Bool) (m n : Cmd A)
      → Walk env Allowed Loops s (m s)
      → Walk env Allowed Loops s (n s)
      → Walk env Allowed Loops s ((if b then m else n) s)
  if-Walk true m n walk other = walk
  if-Walk false m n other walk = walk

  pub option-Walk :
      {B : Type 0} (o : Option B) (n : Cmd A) (k : B → Cmd A)
      → Walk env Allowed Loops s (n s)
      → ((b : B) → Walk env Allowed Loops s (k b s))
      → Walk env Allowed Loops s ((elim o as (λ _. Cmd A) [ none ↦ n | some b ↦ k b ]) s)
  option-Walk none n k walk other = walk
  option-Walk (some b) n k other walk = walk b

  pub bind :
      {B : Type 0} {r : Outcome A} {k : A → Cmd B}
      → Walk env Allowed Loops s r
      → ((a : A) (u : Sys) → Walk env Allowed Loops u (k a u))
      → Walk env Allowed Loops s (and_then r k)
  bind {r = done a t} first rest = record {
    reach = Reach-trans first.reach (rest a t).reach;
    ending = (rest a t).ending;
  }
  bind {r = exited n t} first rest = record { reach = first.reach; ending = first.ending }
  bind {r = fault f t} first rest = record { reach = first.reach; ending = first.ending }
  bind {r = unfinished t} first rest = record { reach = first.reach; ending = first.ending }

module _ {env : Env} {Allowed : Event → Type 0} {Loops : Type 0} {s : Sys} where
  pub malloc-Walk : Walk env Allowed Loops s (malloc env s)
  unfolding malloc
  malloc-Walk = step (next here Step.allocate)

  pub tell-Walk : (e : Event) → Allowed e → Walk env Allowed Loops s (tell env e s)
  unfolding tell
  tell-Walk e allowed = step (next here (Step.happen e allowed))

  pub call-Walk :
      {A : Type 0} (answer : History → A) (event : A → Event)
      → ((a : A) → Allowed (event a))
      → Walk env Allowed Loops s (call env answer event s)
  unfolding call
  call-Walk answer event allowed = step (next here (Step.happen _ (allowed _)))

  pub free_block-Walk : (a : ℕ) → Walk env Allowed Loops s (free_block env a s)
  unfolding free_block
  free_block-Walk a = elim (Bool-cases (member a s.blocks)) [
    | inl live ↦ rw live (step (next here (release a live)))
    | inr dead ↦ rw dead fault-Walk
  ]

  pub free-Walk : (p : CharPtr) → Walk env Allowed Loops s (free env p s)
  unfolding free
  free-Walk unset = fault-Walk
  free-Walk null = pure-Walk
  free-Walk (literal t) = fault-Walk
  free-Walk (block a t) = free_block-Walk a

  pub deref-Walk : (p : CharPtr) → Walk env Allowed Loops s (deref env p s)
  unfolding deref
  deref-Walk unset = fault-Walk
  deref-Walk null = fault-Walk
  deref-Walk (literal t) = pure-Walk
  deref-Walk (block a t) = elim (Bool-cases (member a s.blocks)) [
    | inl live ↦ rw live pure-Walk
    | inr dead ↦ rw dead fault-Walk
  ]

  pub touch-Walk : (a : ℕ) → Walk env Allowed Loops s (touch env a s)
  unfolding touch
  touch-Walk a = elim (Bool-cases (a == 0)) [
    | inl nothing ↦ rw nothing fault-Walk
    | inr nz ↦ rw nz (elim (Bool-cases (member a s.blocks)) [
      | inl live ↦ rw live pure-Walk
      | inr dead ↦ rw dead fault-Walk
    ])
  ]

  pub sigaction-Walk :
      (g : Signal) (f : SignalHandler)
      → Allowed (Event.sigaction g)
      → ((m n : ℕ) → f m n ≢ 1)
      → Walk env Allowed Loops s (sigaction env g f s)
  unfolding sigaction tell
  sigaction-Walk g f allowed stops =
      step (next (next here (handle g f stops)) (Step.happen _ allowed))

module _ {env : Env} {Allowed : Event → Type 0} {Loops : Type 0} {s : Sys} where
  pub lend-Walk : (p : CharPtr) → Walk env Allowed Loops s (lend env p s)
  unfolding lend
  lend-Walk unset = fault-Walk
  lend-Walk null = pure-Walk
  lend-Walk (literal t) = pure-Walk
  lend-Walk (block a t) = bind (deref-Walk (block a t)) λ _ _. pure-Walk

  pub strdup-Walk : (t : String) → Walk env Allowed Loops s (strdup env t s)
  unfolding strdup malloc
  strdup-Walk t = step (next here Step.allocate)

  pub configure-Walk :
      (c : Context) → Walk env Allowed Loops s (modify (λ s. record s { context = c }) s)
  configure-Walk c = step (next here (configure c))

  pub format-Walk :
      (flag : Bool) (p : CharPtr)
      → Walk env Allowed Loops s
          (modify (λ s. record s { date_time_format_should_free = flag; date_time_format = p }) s)
  format-Walk flag p = step (next here (format flag p))
