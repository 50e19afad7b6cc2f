-- ===== src/World/Steps/Reports.antt =====
-- The reports of a run: what a function that may make one report leaves, with rules for its parts.
use tuya_daemon.Base.{
  ◌≡◌, refl, ap, subst, ◌∙◌, Bool, true, false, not, Option, none, some, List, [], ◌∷◌, ℤ,
  is_negative, if◌then◌else◌,
}
use tuya_daemon.World.State.{CharPtr, Event, History, Sys}
use tuya_daemon.World.Environment.{Env}
use tuya_daemon.World.Program.{Outcome, done, exited, fault, unfinished, Cmd, and_then}
use tuya_daemon.World.Calls.{note}
use tuya_daemon.World.Logic.{history-note}
use tuya_daemon.World.Steps.{
  Step, happen, release, handle, configure, format, Reach, here, next, Reach-trans, Walk, final,
}

-- The text of a report, and the answer of the library.
abbrev pub report_of : Event → Option (CharPtr × ℤ)
report_of (Event.property_report p ret) = some (p, ret)
report_of _ = none

-- The events that are no reports.
abbrev pub Unreported : Event → Type 0
Unreported e = report_of e ≡ none

-- The reports of a history, newest first, each with the history before it.
unfoldable pub reports : History → List (CharPtr × ℤ × History)
reports [] = []
reports (e ∷ h) = elim (report_of e) [ none ↦ reports h | some r ↦ (r.0, r.1, h) ∷ reports h ]

-- A value that a part returns, if it returns, has `P`.
abbrev pub Yields : {A : Type 0} → (A → Type 0) → Outcome A → Type 0
Yields P (done a s) = P a
Yields P (exited n s) = Unit
Yields P (fault f s) = Unit
Yields P (unfinished s) = Unit

any-Yields : {A : Type 0} (r : Outcome A) → Yields (λ _. Unit) r
any-Yields (done a s) = tt
any-Yields (exited n s) = tt
any-Yields (fault f s) = tt
any-Yields (unfinished s) = tt

pub bind-Yields :
    {A B : Type 0} {P : A → Type 0} (Q : B → Type 0) (f : A → Cmd B) (r : Outcome A)
    → Yields P r
    → ((a : A) (s : Sys) → P a → Yields Q (f a s))
    → Yields Q (and_then r f)
bind-Yields Q k (done a s) p rest = rest a s p
bind-Yields Q k (exited n s) p rest = tt
bind-Yields Q k (fault f s) p rest = tt
bind-Yields Q k (unfinished s) p rest = tt

-- No report after `rs`, or one of an answer.
pub data Made (rs : List (CharPtr × ℤ × History)) (Answer : CharPtr → History → Type 0)
    : List (CharPtr × ℤ × History) → Type 0 where
  no_report : Made rs Answer rs
  one_report :
      {p : CharPtr} {ret : ℤ} {h : History} → Answer p h → Made rs Answer ((p, ret, h) ∷ rs)

-- What a function that may report leaves: it returns true exactly if it has made one report, which
-- the library has not refused; it makes none, or one of an answer, on every way.
pub data Reports (rs : List (CharPtr × ℤ × History)) (Answer : CharPtr → History → Type 0)
    : Outcome Bool → Type 0 where
  reported :
      {p : CharPtr} {ret : ℤ} {h : History} {a : Bool} {u : Sys}
      → a ≡ not (is_negative ret)
      → Answer p h
      → reports u.history ≡ (p, ret, h) ∷ rs
      → Reports rs Answer (done a u)
  unreported : {u : Sys} → reports u.history ≡ rs → Reports rs Answer (done false u)
  stopped :
      {r : Outcome Bool}
      → Yields (λ _. ⊥) r
      → Made rs Answer (reports (final r).history)
      → Reports rs Answer r

module _ (env : Env) where
  pub note-reports :
      (e : Event) (s : Sys) → Unreported e → reports (note env e s).history ≡ reports s.history
  unfolding reports
  note-reports e s h = rw (history-note env e s, reports, h) refl

  note_report-reports :
      (p : CharPtr) (ret : ℤ) (s : Sys)
      → reports (note env (Event.property_report p ret) s).history
        ≡ (p, ret, s.history) ∷ reports s.history
  unfolding reports
  note_report-reports p ret s = rw (history-note env (Event.property_report p ret) s) refl

  Step-reports : {s t : Sys} → Step env Unreported s t → reports t.history ≡ reports s.history
  Step-reports (happen e h) = note-reports e _ h
  Step-reports Step.allocate = note-reports _ _ refl
  Step-reports (release a h) = note-reports _ _ refl
  Step-reports (handle g f h) = refl
  Step-reports (configure c) = refl
  Step-reports (format flag p) = refl

  pub Reach-reports : {s t : Sys} → Reach env Unreported s t → reports t.history ≡ reports s.history
  Reach-reports here = refl
  Reach-reports (next p step) = Step-reports step ∙ Reach-reports p

module _ {env : Env} {Answer : CharPtr → History → Type 0} {start : Sys} where
  -- A part before the report.
  pub bind-Reports :
      {A : Type 0} {s : Sys} {r : Outcome A} {f : A → Cmd Bool} (P : A → Type 0)
      → Reach env Unreported start s
      → Walk env Unreported ⊥ s r
      → Yields P r
      → ((a : A) (u : Sys)
          → P a
          → Reach env Unreported start u
          → Reports (reports start.history) Answer (f a u))
      → Reports (reports start.history) Answer (and_then r f)
  bind-Reports {r = done a u} P path walk p rest = rest a u p (Reach-trans path walk.reach)
  bind-Reports {r = exited n u} P path walk p rest =
      stopped tt (rw (Reach-reports env (Reach-trans path walk.reach)) no_report)
  bind-Reports {r = fault f u} P path walk p rest =
      stopped tt (rw (Reach-reports env (Reach-trans path walk.reach)) no_report)
  bind-Reports {r = unfinished u} P path walk p rest =
      stopped tt (rw (Reach-reports env (Reach-trans path walk.reach)) no_report)

  pub quiet-Reports :
      {A : Type 0} {s : Sys} {r : Outcome A} {f : A → Cmd Bool}
      → Reach env Unreported start s
      → Walk env Unreported ⊥ s r
      → ((a : A) (u : Sys)
          → Reach env Unreported start u
          → Reports (reports start.history) Answer (f a u))
      → Reports (reports start.history) Answer (and_then r f)
  quiet-Reports {r = r} path walk rest =
      bind-Reports (λ _. Unit) path walk (any-Yields r) λ a u _ p. rest a u p

  -- The same, counted from the start of its last part.
  pub restart :
      {s : Sys} {r : Outcome Bool}
      → Reach env Unreported start s
      → Reports (reports s.history) Answer r
      → Reports (reports start.history) Answer r
  restart {r = r} path rest = subst (λ rs. Reports rs Answer r) (Reach-reports env path) rest

  pub false-Reports :
      {u : Sys}
      → Reach env Unreported start u
      → Reports (reports start.history) Answer (done false u)
  false-Reports path = unreported (Reach-reports env path)

module _ {env : Env} where
  -- A part after the report, which does not change the result.
  pub after-Reports :
      {rs : List (CharPtr × ℤ × History)} {Answer : CharPtr → History → Type 0} {p : CharPtr}
      {ret : ℤ} {h : History} {b : Bool} {A : Type 0} {s : Sys} {r : Outcome A}
      → b ≡ not (is_negative ret)
      → Answer p h
      → reports s.history ≡ (p, ret, h) ∷ rs
      → Walk env Unreported ⊥ s r
      → Reports rs Answer (and_then r (λ _. done b))
  after-Reports {r = done a u} result answer made walk =
      reported result answer (Reach-reports env walk.reach ∙ made)
  after-Reports {r = exited n u} result answer made walk =
      stopped tt (rw (Reach-reports env walk.reach ∙ made) (one_report answer))
  after-Reports {r = fault f u} result answer made walk =
      stopped tt (rw (Reach-reports env walk.reach ∙ made) (one_report answer))
  after-Reports {r = unfinished u} result answer made walk =
      stopped tt (rw (Reach-reports env walk.reach ∙ made) (one_report answer))

  pub report-made :
      (p : CharPtr) (ret : ℤ) {start s : Sys}
      → Reach env Unreported start s
      → reports (note env (Event.property_report p ret) s).history
        ≡ (p, ret, s.history) ∷ reports start.history
  report-made p ret {s = s} path =
      note_report-reports env p ret _ ∙ ap (λ rs. (p, ret, s.history) ∷ rs) (Reach-reports env path)

pub if-Reports :
    {rs : List (CharPtr × ℤ × History)} {Answer : CharPtr → History → Type 0} {s : Sys} (b : Bool)
    (m m' : Cmd Bool)
    → Reports rs Answer (m s)
    → Reports rs Answer (m' s)
    → Reports rs Answer ((if b then m else m') s)
if-Reports true m m' taken skipped = taken
if-Reports false m m' skipped taken = taken

pub assoc-Reports :
    {rs : List (CharPtr × ℤ × History)} {Answer : CharPtr → History → Type 0} {A B : Type 0}
    (r : Outcome A) (f : A → Cmd B) (g : B → Cmd Bool)
    → Reports rs Answer (and_then r (λ a s. and_then (f a s) g))
    → Reports rs Answer (and_then (and_then r f) g)
assoc-Reports (done a s) f g h = h
assoc-Reports (exited n s) f g h = h
assoc-Reports (fault x s) f g h = h
assoc-Reports (unfinished s) f g h = h
