-- ===== src/World/Steps/Prompt.antt =====
-- How soon a daemon ends after a signal: the calls that may block, counted from the moment of the
-- signal on, with rules for the runs of a daemon that is told to stop.
use tuya_daemon.Base.{
  ℕ, ◌+◌, ◌≤◌, ◌≡◌, ◌≢◌, refl, Bool, true, false, Option, none, some, [], ◌∷◌, arith, length, leb,
  if◌then◌else◌, ◌==◌,
}
use tuya_daemon.World.State.{Signal, sigint, sigterm, SignalHandler, Event, History, Sys}
use tuya_daemon.World.Environment.{Env}
use tuya_daemon.World.Program.{Outcome, done, exited, fault, unfinished, Fault, Cmd, and_then}
use tuya_daemon.World.Calls.{note, tell, call, sigaction}
use tuya_daemon.World.Logic.{history-note}
use tuya_daemon.World.Steps.{
  Step, happen, release, handle, configure, format, Reach, here, next, Walk, final,
}
use tuya_daemon.World.Steps.Invariants.{
  Armed, Arrives, Reach-Armed, note-Armed, running-before, installed, installed-Armed,
  installed-length,
}

-- The calls that may take long.
pub data Kind : Type 0 where
  sleeping connecting looping : Kind

abbrev pub kind_of : Event → Option Kind
kind_of (Event.sleep n) = some sleeping
kind_of (Event.mqtt_connect r) = some connecting
kind_of (Event.mqtt_loop r) = some looping
kind_of _ = none

abbrev pub same_kind : Kind → Kind → ℕ
same_kind sleeping sleeping = 1
same_kind connecting connecting = 1
same_kind looping looping = 1
same_kind _ _ = 0

-- 1 for a call of the kind, 0 for any other.
abbrev pub hit : Kind → Event → ℕ
hit k e = elim (kind_of e) [ none ↦ 0 | some j ↦ same_kind k j ]

-- How many calls of the kind come after the event with the number `moment`.
unfoldable pub late : ℕ → Kind → History → ℕ
late moment k [] = 0
late moment k (e ∷ h) = (if leb moment (length h) then hit k e else 0) + late moment k h

pub late-early : (moment : ℕ) (k : Kind) (h : History) → length h ≤ moment → late moment k h ≡ 0
unfolding late
late-early moment k [] early = refl
late-early moment k (e ∷ h) early = ground (arith, late-early moment k h (omega arith))

-- A run that is told to stop at `moment` makes at most `n` calls of the kind after it, whatever its
-- outcome; where it returns, the signal is still handled.
pub data Prompt (g : Signal) (moment : ℕ) (k : Kind) (n : ℕ) {A : Type 0} : Outcome A → Type 0 where
  returns :
      {a : A} {s : Sys}
      → Armed g moment s
      → late moment k s.history ≤ n
      → Prompt g moment k n (done a s)
  exits : {i : ℕ} {s : Sys} → late moment k s.history ≤ n → Prompt g moment k n (exited i s)
  faults : {f : Fault} {s : Sys} → late moment k s.history ≤ n → Prompt g moment k n (fault f s)
  loops : {s : Sys} → late moment k s.history ≤ n → Prompt g moment k n (unfinished s)

pub Prompt-late :
    {g : Signal} {moment : ℕ} {k : Kind} {n : ℕ} {A : Type 0} {r : Outcome A}
    → Prompt g moment k n r
    → late moment k (final r).history ≤ n
Prompt-late (returns armed few) = few
Prompt-late (exits few) = few
Prompt-late (faults few) = few
Prompt-late (loops few) = few

module _ (env : Env) (moment : ℕ) (k : Kind) where
  note-late :
      (e : Event) (s : Sys)
      → late moment k (note env e s).history ≤ late moment k s.history + hit k e
  unfolding late
  note-late e s = rw (history-note env e s) (ground arith)

  Step-late :
      {Allowed : Event → Type 0} {s t : Sys}
      → ((e : Event) → Allowed e → hit k e ≡ 0)
      → Step env Allowed s t
      → late moment k t.history ≤ late moment k s.history
  Step-late uncounted (happen e h) = omega (arith, note-late e _, uncounted e h)
  Step-late uncounted Step.allocate = omega (arith, note-late _ _)
  Step-late uncounted (release a h) = omega (arith, note-late _ _)
  Step-late uncounted (handle g f h) = omega arith
  Step-late uncounted (configure c) = omega arith
  Step-late uncounted (format flag p) = omega arith

  Reach-late :
      {Allowed : Event → Type 0} {s t : Sys}
      → ((e : Event) → Allowed e → hit k e ≡ 0)
      → Reach env Allowed s t
      → late moment k t.history ≤ late moment k s.history
  Reach-late uncounted here = omega arith
  Reach-late uncounted (next p step) =
      omega (arith, Reach-late uncounted p, Step-late uncounted step)

-- A loop that still runs has made no such call after the signal.
pub running-late :
    (g : Signal) (moment : ℕ) (k : Kind) (s : Sys)
    → Armed g moment s
    → (s.keep_running == 1) ≡ true
    → late moment k s.history ≡ 0
running-late g moment k s armed running =
    late-early moment k s.history (omega (arith, running-before g moment s armed running))

pub if-Prompt :
    {g : Signal} {moment : ℕ} {k : Kind} {n : ℕ} {A : Type 0} {s : Sys} (b : Bool) (m m' : Cmd A)
    → (b ≡ true → Prompt g moment k n (m s))
    → (b ≡ false → Prompt g moment k n (m' s))
    → Prompt g moment k n ((if b then m else m') s)
if-Prompt true m m' taken skipped = taken refl
if-Prompt false m m' skipped taken = taken refl

module _ {env : Env} {g : Signal} {moment : ℕ} (signal : Arrives env g moment) {k : Kind} where
  pub quiet-Prompt :
      {Allowed : Event → Type 0} {Loops A : Type 0} {s : Sys} {r : Outcome A} (n : ℕ)
      → ((e : Event) → Allowed e → hit k e ≡ 0)
      → Walk env Allowed Loops s r
      → Armed g moment s
      → late moment k s.history ≤ n
      → Prompt g moment k n r
  quiet-Prompt {r = done a u} n uncounted walk armed few =
      returns (Reach-Armed signal walk.reach armed)
        (omega (arith, Reach-late env moment k uncounted walk.reach))
  quiet-Prompt {r = exited i u} n uncounted walk armed few =
      exits (omega (arith, Reach-late env moment k uncounted walk.reach))
  quiet-Prompt {r = fault f u} n uncounted walk armed few =
      faults (omega (arith, Reach-late env moment k uncounted walk.reach))
  quiet-Prompt {r = unfinished u} n uncounted walk armed few =
      loops (omega (arith, Reach-late env moment k uncounted walk.reach))

  pub tell-Prompt :
      {s : Sys} (n : ℕ) (e : Event)
      → Armed g moment s
      → late moment k s.history ≤ n
      → Prompt g moment k (n + hit k e) (tell env e s)
  unfolding tell
  tell-Prompt {s} n e armed few =
      returns (note-Armed signal e s armed) (omega (arith, note-late env moment k e s))

  pub call-Prompt :
      {A : Type 0} {s : Sys} (n c : ℕ) (answer : History → A) (event : A → Event)
      → ((a : A) → hit k (event a) ≡ c)
      → Armed g moment s
      → late moment k s.history ≤ n
      → Prompt g moment k (n + c) (call env answer event s)
  unfolding call
  call-Prompt {s = s} n c answer event cost armed few =
      returns (note-Armed signal _ s armed) (
        omega (arith, cost (answer s.history), note-late env moment k (event (answer s.history)) s))

module _ {g : Signal} {moment : ℕ} {k : Kind} where
  pub bind :
      {A B : Type 0} {n m : ℕ} {r : Outcome A} {f : A → Cmd B}
      → n ≤ m
      → Prompt g moment k n r
      → ((a : A) (u : Sys)
          → Armed g moment u
          → late moment k u.history ≤ n
          → Prompt g moment k m (f a u))
      → Prompt g moment k m (and_then r f)
  bind le (returns armed few) rest = rest _ _ armed few
  bind le (exits few) rest = exits (omega arith)
  bind le (faults few) rest = faults (omega arith)
  bind le (loops few) rest = loops (omega arith)

-- After the two handlers have been installed, before the signal arrives.
module _ {env : Env} {g : Signal} {moment : ℕ} (signal : Arrives env g moment) {k : Kind} where
  pub installed-Prompt :
      {B : Type 0} {n : ℕ} (s : Sys) (f : SignalHandler) (onward : Unit {0} → Cmd B)
      (stops : (m i : ℕ) → f m i ≢ 1)
      → length s.history + 3 ≤ moment
      → ((u : Sys)
          → Armed g moment u
          → late moment k u.history ≤ 0
          → Prompt g moment k n (onward tt u))
      → Prompt g moment k n
          (and_then (and_then (sigaction env sigint f s) (λ _. sigaction env sigterm f)) onward)
  unfolding sigaction tell
  installed-Prompt s f onward stops early rest =
      rest (installed env f stops s) (installed-Armed env f stops s g moment early) (
        omega (
          arith,
          late-early moment k (installed env f stops s).history
              (omega (arith, installed-length env f stops s)),
        ))
