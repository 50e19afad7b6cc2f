-- ===== src/World/Steps/Refused.antt =====
-- Runs in which no report has been accepted since the newest sleep.
use tuya_daemon.Base.{◌≡◌, refl, Bool, true, false, if◌then◌else◌, ◌∷◌}
use tuya_daemon.World.State.{Event, Sys}
use tuya_daemon.World.Environment.{Env}
use tuya_daemon.World.Program.{Outcome, done, exited, fault, unfinished, Cmd, and_then}
use tuya_daemon.World.Calls.{note}
use tuya_daemon.World.Logic.{Returns, ends, runs, is_accepted, unsent, history-note}
use tuya_daemon.World.Steps.Reports.{Yields}
use tuya_daemon.World.Steps.{
  Step, happen, release, handle, configure, format, Reach, here, next, Walk,
}

-- The events that are no accepted report.
abbrev pub Unaccepted : Event → Type 0
Unaccepted e = is_accepted e ≡ false

-- If the code returns a failure, then no report has been accepted since the newest sleep.
pub data Refused {A : Type 0} (failed : A → Bool) : Outcome A → Type 0 where
  returned :
      {a : A} {u : Sys} → (failed a ≡ true → unsent u.history ≡ true) → Refused failed (done a u)
  stopped : {r : Outcome A} → Yields (λ _. ⊥) r → Refused failed r

unsent-event :
    (e : Event) (s : Sys) → Unaccepted e → unsent s.history ≡ true → unsent (e ∷ s.history) ≡ true
unfolding unsent
unsent-event (Event.sleep n) s h k = refl
unsent-event (Event.property_report p ret) s h k = rw (h, k) refl
unsent-event (Event.property_report_with_ack p ret) s h k = rw (h, k) refl
unsent-event _ s h k = k

module _ (env : Env) where
  pub note-unsent :
      (e : Event) (s : Sys)
      → Unaccepted e
      → unsent s.history ≡ true
      → unsent (note env e s).history ≡ true
  note-unsent e s h k = rw (history-note env e s) (unsent-event e s h k)

  Step-unsent :
      {s t : Sys} → Step env Unaccepted s t → unsent s.history ≡ true → unsent t.history ≡ true
  Step-unsent (happen e h) k = note-unsent e _ h k
  Step-unsent Step.allocate k = note-unsent _ _ refl k
  Step-unsent (release a h) k = note-unsent _ _ refl k
  Step-unsent (handle g f h) k = k
  Step-unsent (configure c) k = k
  Step-unsent (format flag p) k = k

  Reach-unsent :
      {s t : Sys} → Reach env Unaccepted s t → unsent s.history ≡ true → unsent t.history ≡ true
  Reach-unsent here k = k
  Reach-unsent (next p step) k = Step-unsent step (Reach-unsent p k)

module _ {env : Env} {A : Type 0} where
  pub Walk-Refused :
      (failed : A → Bool) {s : Sys} {r : Outcome A}
      → unsent s.history ≡ true
      → Walk env Unaccepted ⊥ s r
      → Refused failed r
  Walk-Refused failed {r = done a u} k walk = returned λ _. Reach-unsent env walk.reach k
  Walk-Refused failed {r = exited n u} k walk = stopped tt
  Walk-Refused failed {r = fault f u} k walk = stopped tt
  Walk-Refused failed {r = unfinished u} k walk = stopped tt

  pub bind-Refused :
      {B : Type 0} (failed : B → Bool) {s : Sys} {r : Outcome A} {f : A → Cmd B}
      → unsent s.history ≡ true
      → Walk env Unaccepted ⊥ s r
      → ((a : A) (u : Sys) → unsent u.history ≡ true → Refused failed (f a u))
      → Refused failed (and_then r f)
  bind-Refused failed {r = done a u} k walk rest = rest a u (Reach-unsent env walk.reach k)
  bind-Refused failed {r = exited n u} k walk rest = stopped tt
  bind-Refused failed {r = fault f u} k walk rest = stopped tt
  bind-Refused failed {r = unfinished u} k walk rest = stopped tt

  -- What follows the report, with the same result.
  pub after-Refused :
      (failed : A → Bool) {r : Outcome A} (f : A → Cmd (Unit {0}))
      → Refused failed r
      → ((a : A) (u : Sys) → Walk env Unaccepted ⊥ u (f a u))
      → Refused failed (and_then r (λ a u. and_then (f a u) (λ _. done a)))
  after-Refused failed f (returned {a} {u} k) walk = kept (walk a u)
    where
      kept :
          {o : Outcome (Unit {0})}
          → Walk env Unaccepted ⊥ u o
          → Refused failed (and_then o (λ _. done a))
      kept {o = done x v} w = returned λ bad. Reach-unsent env w.reach (k bad)
      kept {o = exited n v} w = stopped tt
      kept {o = fault x v} w = stopped tt
      kept {o = unfinished v} w = stopped tt
  after-Refused failed {r = r} f (stopped h) walk = ended r h
    where
      ended :
          (r : Outcome A)
          → Yields (λ _. ⊥) r
          → Refused failed (and_then r (λ a u. and_then (f a u) (λ _. done a)))
      ended (done a u) h = absurd h
      ended (exited n u) h = stopped tt
      ended (fault x u) h = stopped tt
      ended (unfinished u) h = stopped tt

pub if-Refused :
    {A : Type 0} (failed : A → Bool) {s : Sys} (b : Bool) (m m' : Cmd A)
    → (b ≡ true → Refused failed (m s))
    → (b ≡ false → Refused failed (m' s))
    → Refused failed ((if b then m else m') s)
if-Refused failed true m m' then_case else_case = then_case refl
if-Refused failed false m m' then_case else_case = else_case refl

-- What is known of the code's end, with that.
pub Returns-Refused :
    {A : Type 0} (failed : A → Bool) {Q : A → Sys → Type 0} {r : Outcome A}
    → Refused failed r
    → Returns Q r
    → Returns (λ a u. Q a u × (failed a ≡ true → unsent u.history ≡ true)) r
Returns-Refused failed (returned k) (ends q) = ends (q, k)
Returns-Refused failed (stopped h) (ends q) = absurd h
Returns-Refused failed k (runs h) = absurd h
