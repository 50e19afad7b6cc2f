-- ===== src/World/Steps/Invariants.antt =====
-- What the steps of a run keep: which events are new, and that a daemon that is told to stop stays
-- so.
use tuya_daemon.Base.{
  ℕ, ◌+◌, ◌≤◌, ◌≡◌, ◌≢◌, refl, sym, ap, ◌∙◌, Bool, true, false, Option, some, ◌∷◌, length, arith,
  ◌⊎◌, inl, inr, Bool-cases, ◌==◌, some-injective, subst, ltb,
}
use tuya_daemon.World.State.{Signal, sigint, sigterm, SignalHandler, Event, History, Sys}
use tuya_daemon.World.Environment.{Env}
use tuya_daemon.World.Calls.{note, deliver, install}
use tuya_daemon.World.Steps.{Step, happen, release, handle, configure, format, Reach, here, next}
use tuya_daemon.World.Logic.{Quits, note-stopped, history-note}

abbrev pub is_heap : Event → Bool
is_heap (Event.malloc a) = true
is_heap (Event.free a) = true
is_heap _ = false

-- The events that a run adds to a history, newest first, each with `P`.
pub data Adds (P : Event → Type 0) (h : History) : History → Type 0 where
  nothing : Adds P h h
  event : {h' : History} (e : Event) → P e → Adds P h h' → Adds P h (e ∷ h')

pub Adds-trans : {P : Event → Type 0} {h i j : History} → Adds P h i → Adds P i j → Adds P h j
Adds-trans first nothing = first
Adds-trans first (event e p more) = event e p (Adds-trans first more)

module _ (env : Env) (e : Event) (s : Sys) where
  -- What a signal does not touch.
  note-blocks : (note env e s).blocks ≡ s.blocks
  unfolding note
  note-blocks = ground arith

  note-handlers : (note env e s).handlers ≡ s.handlers
  unfolding note
  note-handlers = ground arith

  note-Adds :
      {P : Event → Type 0} {h : History}
      → P e
      → Adds P h s.history
      → Adds P h (note env e s).history
  note-Adds p added = subst (Adds _ _) (sym (history-note env e s)) (event e p added)

module _ {env : Env} {Allowed P : Event → Type 0} (allowed : (e : Event) → Allowed e → P e)
    (malloc : (a : ℕ) → P (Event.malloc a)) (free : (a : ℕ) → P (Event.free a)) where
  -- Every event that a run adds has `P`, if those that are allowed have it.
  pub Reach-Adds : {s t : Sys} → Reach env Allowed s t → Adds P s.history t.history
  Reach-Adds here = nothing
  Reach-Adds (next p (happen e h)) = note-Adds env e _ (allowed e h) (Reach-Adds p)
  Reach-Adds (next p Step.allocate) = note-Adds env _ _ (malloc _) (Reach-Adds p)
  Reach-Adds (next p (release a h)) = note-Adds env _ _ (free a) (Reach-Adds p)
  Reach-Adds (next p (handle g f h)) = Reach-Adds p
  Reach-Adds (next p (configure c)) = Reach-Adds p
  Reach-Adds (next p (format flag q)) = Reach-Adds p

pub note-length :
    (env : Env) (e : Event) (s : Sys) → length (note env e s).history ≡ length s.history + 1
note-length env e s = ap length (history-note env e s) ∙ omega arith

at_most_next : (m n : ℕ) → m ≤ n + 1 → (n + 1 ≡ m) ⊎ (m ≤ n)
at_most_next m n h = elim (Bool-cases (n + 1 == m)) [
  | inl now ↦ inl (ground arith)
  | inr later ↦ inr (ground arith)
]

-- What a handler that is installed leaves in `keep_running`.
abbrev pub IsHandled : Signal → (Signal → Option SignalHandler) → Type 0
IsHandled g handlers = (f : SignalHandler) × (handlers g ≡ some f)

-- The signal `g` is handled, and it has made the loops stop if it has arrived, at the latest with
-- the `moment`-th event.
pub record Armed (g : Signal) (moment : ℕ) (s : Sys) : Type 0 where
  pub quits : Quits s.handlers
  pub handled : IsHandled g s.handlers
  pub stopped : moment ≤ length s.history → s.keep_running ≢ 1

-- The signal arrives at the `moment`-th event.
pub record Arrives (env : Env) (g : Signal) (moment : ℕ) : Type 0 where
  pub arrives : (h : History) → length h ≡ moment → env.signal h ≡ some g

install-Quits :
    (g' : Signal) (f : SignalHandler) (hs : Signal → Option SignalHandler)
    → ((m n : ℕ) → f m n ≢ 1)
    → Quits hs
    → Quits (install g' f hs)
install-Quits sigint f hs stops quits sigint f' e =
    λ m n stop. stops m n (ap (λ (k : SignalHandler). k m n) (some-injective _ _ e) ∙ stop)
install-Quits sigint f hs stops quits sigterm f' e = quits sigterm f' e
install-Quits sigterm f hs stops quits sigint f' e = quits sigint f' e
install-Quits sigterm f hs stops quits sigterm f' e =
    λ m n stop. stops m n (ap (λ (k : SignalHandler). k m n) (some-injective _ _ e) ∙ stop)

install-IsHandled :
    (g g' : Signal) (f : SignalHandler) (hs : Signal → Option SignalHandler)
    → IsHandled g hs
    → IsHandled g (install g' f hs)
install-IsHandled sigint sigint f hs handled = (f, refl)
install-IsHandled sigint sigterm f hs handled = handled
install-IsHandled sigterm sigint f hs handled = handled
install-IsHandled sigterm sigterm f hs handled = (f, refl)

module _ {env : Env} {g : Signal} {moment : ℕ} (signal : Arrives env g moment) where
  deliver-Stops :
      (e : Event) (s : Sys)
      → Armed g moment s
      → length (e ∷ s.history) ≡ moment
      → (note env e s).keep_running ≢ 1
  unfolding note
  deliver-Stops e s armed now =
      rw (signal.arrives (e ∷ s.history) now, deliver, armed.handled.1)
        (armed.quits g armed.handled.0 armed.handled.1 _ _)

  pub note-Armed : (e : Event) (s : Sys) → Armed g moment s → Armed g moment (note env e s)
  note-Armed e s armed = record {
    quits = λ g' f h. armed.quits g' f (ap (λ hs. hs g') (sym (note-handlers env e s)) ∙ h);
    handled = (armed.handled.0, ap (λ hs. hs g) (note-handlers env e s) ∙ armed.handled.1);
    stopped = λ late.
        elim (at_most_next moment (length s.history)
          (subst (λ n. moment ≤ n) (note-length env e s) late)) [
            | inl now ↦ deliver-Stops e s armed (omega arith)
            | inr before ↦ note-stopped env e s armed.quits (armed.stopped before)
          ];
  }

  Step-Armed :
      {Allowed : Event → Type 0} {s t : Sys}
      → Step env Allowed s t
      → Armed g moment s
      → Armed g moment t
  Step-Armed (happen e h) armed = note-Armed e _ armed
  Step-Armed Step.allocate armed =
      note-Armed _ _
        (record { quits = armed.quits; handled = armed.handled; stopped = armed.stopped })
  Step-Armed (release a h) armed =
      note-Armed _ _
        (record { quits = armed.quits; handled = armed.handled; stopped = armed.stopped })
  Step-Armed (handle g' f h) armed = record {
    quits = install-Quits g' f _ h armed.quits;
    handled = install-IsHandled g g' f _ armed.handled;
    stopped = armed.stopped;
  }
  Step-Armed (configure c) armed = record {
    quits = armed.quits;
    handled = armed.handled;
    stopped = armed.stopped;
  }
  Step-Armed (format flag p) armed = record {
    quits = armed.quits;
    handled = armed.handled;
    stopped = armed.stopped;
  }

  pub Reach-Armed :
      {Allowed : Event → Type 0} {s t : Sys}
      → Reach env Allowed s t
      → Armed g moment s
      → Armed g moment t
  Reach-Armed here armed = armed
  Reach-Armed (next p step) armed = Step-Armed step (Reach-Armed p armed)

Step-length :
    {env : Env} {Allowed : Event → Type 0} {s t : Sys}
    → Step env Allowed s t
    → length s.history ≤ length t.history
Step-length {env} (happen e h) = omega (arith, note-length env e _)
Step-length {env} Step.allocate = omega (arith, note-length env _ _)
Step-length {env} (release a h) = omega (arith, note-length env _ _)
Step-length (handle g f h) = omega arith
Step-length (configure c) = omega arith
Step-length (format flag p) = omega arith

pub Reach-length :
    {env : Env} {Allowed : Event → Type 0} {s t : Sys}
    → Reach env Allowed s t
    → length s.history ≤ length t.history
Reach-length here = omega arith
Reach-length (next p step) = omega (arith, Reach-length p, Step-length step)

-- After the two calls that install a handler for each signal.
module _ (env : Env) (f : SignalHandler) (stops : (m n : ℕ) → f m n ≢ 1) (s : Sys) where
  abbrev first : Sys
  first = record s { handlers = install sigint f s.handlers }

  abbrev second : Sys
  second =
      let t = note env (Event.sigaction sigint) first in
      record t { handlers = install sigterm f t.handlers }

  abbrev pub installed : Sys
  installed = note env (Event.sigaction sigterm) second

  installed-handlers : (g : Signal) → installed.handlers g ≡ some f
  installed-handlers sigint =
      ap (λ (hs : Signal → Option SignalHandler). hs sigint) (note-handlers env _ second)
      ∙ ap (λ (hs : Signal → Option SignalHandler). hs sigint) (note-handlers env _ first)
  installed-handlers sigterm =
      ap (λ (hs : Signal → Option SignalHandler). hs sigterm) (note-handlers env _ second)

  pub installed-length : length installed.history ≡ length s.history + 2
  installed-length = omega (
    arith,
    note-length env (Event.sigaction sigint) first,
    note-length env (Event.sigaction sigterm) second,
  )

  pub installed-Armed :
      (g : Signal) (moment : ℕ) → length s.history + 3 ≤ moment → Armed g moment installed
  installed-Armed g moment late = record {
    quits = λ g' f' e m n stop. stops m n (
        ap (λ (k : SignalHandler). k m n) (some-injective _ _ (sym (installed-handlers g') ∙ e))
        ∙ stop);
    handled = (f, installed-handlers g);
    stopped = λ early. absurd (omega (arith, installed-length));
  }

at_one : (n : ℕ) → (n == 1) ≡ true → n ≡ 1
at_one n h = ground arith

-- A loop that still runs has not seen the signal.
pub running-before :
    (g : Signal) (moment : ℕ) (s : Sys)
    → Armed g moment s
    → (s.keep_running == 1) ≡ true
    → length s.history + 1 ≤ moment
running-before g moment s armed running = elim (Bool-cases (ltb (length s.history) moment)) [
  | inl before ↦ ground arith
  | inr late ↦ absurd (armed.stopped (ground arith) (at_one _ running))
]
