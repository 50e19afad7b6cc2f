-- ===== src/World/Protocol.antt =====
-- The order in which a client of libtuya makes its calls, as a state machine that is independent
-- of the daemons' code, with rules for runs that follow it. The machine reads a history alone.
use tuya_daemon.Base.{
  ℕ, arith, not, ◌&&◌, String, ◌≡◌, refl, Bool, true, false, Option, none, some, [], ◌∷◌, ℤ,
  is_zero, if◌then◌else◌, subst,
}
use tuya_daemon.World.State.{Event, History, Sys}
use tuya_daemon.World.Environment.{Env}
use tuya_daemon.World.Program.{
  Outcome, done, exited, fault, unfinished, Fault, Cmd, and_then, pure, ◌>>◌,
}
use tuya_daemon.World.Calls.{note, tell, call, syslog}
use tuya_daemon.World.Logic.{history-note}
use tuya_daemon.World.Steps.{
  Step, happen, release, handle, configure, format, Reach, here, next, Walk,
}

-- Where a client stands. `linked`: `tuya_mqtt_connect` has succeeded; `broken`: `tuya_mqtt_loop`
-- has failed since.
pub data Phase : Type 0 where
  unopened init_failed opened linked broken left closed : Phase

-- What an event means to the protocol; `ok` says that the call has succeeded.
pub data Use : Type 0 where
  opens connects loops : Bool → Use
  polls waits reports leaves shuts other : Use

abbrev pub use_of : Event → Use
use_of (Event.mqtt_init r) = opens (is_zero r)
use_of (Event.mqtt_connect r) = connects (is_zero r)
use_of (Event.mqtt_loop r) = loops (is_zero r)
use_of (Event.mqtt_connected b) = polls
use_of (Event.sleep n) = waits
use_of (Event.property_report p r) = reports
use_of (Event.property_report_with_ack t r) = reports
use_of (Event.mqtt_disconnect r) = leaves
use_of (Event.mqtt_deinit r) = shuts
use_of _ = other

-- The calls that drive the library, and the sleeps between them.
abbrev pub Driving : Event → Type 0
Driving (Event.mqtt_init _) = Unit
Driving (Event.mqtt_connect _) = Unit
Driving (Event.mqtt_loop _) = Unit
Driving (Event.mqtt_connected _) = Unit
Driving (Event.mqtt_disconnect _) = Unit
Driving (Event.mqtt_deinit _) = Unit
Driving (Event.sleep _) = Unit
Driving _ = ⊥

-- From `tuya_mqtt_init` to `tuya_mqtt_disconnect`.
abbrev pub is_open : Phase → Bool
is_open unopened = false
is_open left = false
is_open closed = false
is_open _ = true

-- The phase after a call, if the protocol allows the call.
unfoldable pub follow : Phase → Use → Option Phase
follow p other = some p
follow p reports = if is_open p then some p else none
follow p leaves = if is_open p then some left else none
follow left shuts = some closed
follow unopened (opens ok) = some (if ok then opened else init_failed)
follow opened (connects ok) = some (if ok then linked else opened)
follow opened waits = some opened
follow linked waits = some linked
follow linked polls = some linked
follow linked (loops ok) = some (if ok then linked else broken)
follow _ _ = none

-- The phase after a history, if each of its calls was allowed.
unfoldable pub phase_of : History → Option Phase
unfolding follow
phase_of [] = some unopened
phase_of (e ∷ h) = elim (phase_of h) [ none ↦ none | some p ↦ follow p (use_of e) ]

-- The protocol has been followed, and the phase is `p`.
abbrev pub In : Phase → Sys → Type 0
In p s = phase_of s.history ≡ some p

pub moved : {p q : Phase} (s : Sys) → p ≡ q → In p s → In q s
moved s e i = subst (λ (x : Phase). In x s) e i

-- The events that leave the phase `p` as it is.
abbrev pub Passive : Phase → Event → Type 0
Passive p e = follow p (use_of e) ≡ some p

pub reports_stay : (p : Phase) → is_open p ≡ true → follow p Use.reports ≡ some p
unfolding follow
reports_stay p within = rw within refl

pub other_stays : (p : Phase) → follow p Use.other ≡ some p
unfolding follow
other_stays p = refl

pub leaves_open : (p : Phase) → is_open p ≡ true → follow p Use.leaves ≡ some left
unfolding follow
leaves_open p within = rw within refl

-- The phase after `tuya_mqtt_connect`.
abbrev pub after_connect : ℤ → Phase
after_connect ret = if is_zero ret then linked else opened

pub refused : (b c : Bool) → (not b && c) ≡ true → b ≡ false
refused b c h = ground arith

-- What `connect_to_tuya` leaves, by its status.
abbrev pub IsReady : ℤ → Phase → Type 0
IsReady ret q = (is_zero ret ≡ true → q ≡ linked) × (is_open q ≡ true)

-- A run, whatever its outcome, follows the protocol. If it returns, its value and phase have `Q`;
-- if it is in a loop when the fuel is gone, it is linked.
pub data Obeys {A : Type 0} (Q : A → Phase → Type 0) : Outcome A → Type 0 where
  returns : {a : A} {s : Sys} (p : Phase) → In p s → Q a p → Obeys Q (done a s)
  exits : {n : ℕ} {s : Sys} (p : Phase) → In p s → Obeys Q (exited n s)
  faults : {f : Fault} {s : Sys} (p : Phase) → In p s → Obeys Q (fault f s)
  looping : {s : Sys} → In linked s → Obeys Q (unfinished s)

-- The phase is `p`, whatever is returned.
abbrev pub Still : {A : Type 0} → Phase → A → Phase → Type 0
Still p _ q = q ≡ p

module _ {A : Type 0} {P : A → Phase → Type 0} where
  pub mono :
      {Q : A → Phase → Type 0} {r : Outcome A}
      → Obeys P r
      → ((a : A) (p : Phase) → P a p → Q a p)
      → Obeys Q r
  mono (returns p i h) weaken = returns p i (weaken _ p h)
  mono (exits p i) weaken = exits p i
  mono (faults p i) weaken = faults p i
  mono (looping i) weaken = looping i

  pub bind :
      {B : Type 0} {Q : B → Phase → Type 0} {r : Outcome A} {k : A → Cmd B}
      → Obeys P r
      → ((a : A) (u : Sys) (p : Phase) → In p u → P a p → Obeys Q (k a u))
      → Obeys Q (and_then r k)
  bind (returns p i h) rest = rest _ _ p i h
  bind (exits p i) rest = exits p i
  bind (faults p i) rest = faults p i
  bind (looping i) rest = looping i

-- After a part that ends in the phase `q`.
pub proceed :
    {A B : Type 0} {q : Phase} {Q : B → Phase → Type 0} {r : Outcome A} {k : A → Cmd B}
    → Obeys (Still q) r
    → ((a : A) (u : Sys) → In q u → Obeys Q (k a u))
    → Obeys Q (and_then r k)
proceed {q = q} first rest = bind first λ a u p i e. rest a u (moved u e i)

pub if-Obeys :
    {A : Type 0} {Q : A → Phase → Type 0} (b : Bool) (m n : Cmd A) {s : Sys}
    → (b ≡ true → Obeys Q (m s))
    → (b ≡ false → Obeys Q (n s))
    → Obeys Q ((if b then m else n) s)
if-Obeys true m n taken skipped = taken refl
if-Obeys false m n skipped taken = taken refl

module _ (env : Env) (s : Sys) {p : Phase} (i : In p s) where
  -- One call moves the phase.
  note-In : (e : Event) (q : Phase) → follow p (use_of e) ≡ some q → In q (note env e s)
  unfolding phase_of
  note-In e q moves = rw (history-note env e s, phase_of, i) moves

  pub tell-Obeys :
      (e : Event) (q : Phase) → follow p (use_of e) ≡ some q → Obeys (Still q) (tell env e s)
  unfolding tell
  tell-Obeys e q moves = returns q (note-In e q moves) refl

  pub call-Obeys :
      {A : Type 0} (answer : History → A) (event : A → Event) (q : A → Phase)
      → ((a : A) → follow p (use_of (event a)) ≡ some (q a))
      → Obeys (λ a x. x ≡ q a) (call env answer event s)
  unfolding call
  call-Obeys answer event q moves = returns _ (note-In (event _) _ (moves _)) refl

-- A line of the log, and a value.
pub log_pure :
    (env : Env) {A : Type 0} {Q : A → Phase → Type 0} {p : Phase} (n : ℕ) (t : String) (a : A)
    (s : Sys)
    → In p s
    → Q a p
    → Obeys Q ((syslog env n t >> pure a) s)
log_pure env n t a s i q =
    proceed (tell-Obeys env s i (Event.syslog n t) _ (other_stays _)) λ _ u j. returns _ j q

-- Events that leave the phase as it is.
module _ {env : Env} {Allowed : Event → Type 0} {p : Phase}
    (passive : (e : Event) → Allowed e → follow p (use_of e) ≡ some p) where
  pub Reach-In : {s t : Sys} → Reach env Allowed s t → In p s → In p t
  unfolding follow
  Reach-In here i = i
  Reach-In (next path (happen e h)) i = note-In env _ (Reach-In path i) e p (passive e h)
  Reach-In (next path Step.allocate) i = note-In env _ (Reach-In path i) _ p refl
  Reach-In (next path (release a h)) i = note-In env _ (Reach-In path i) _ p refl
  Reach-In (next path (handle g f h)) i = Reach-In path i
  Reach-In (next path (configure c)) i = Reach-In path i
  Reach-In (next path (format flag q)) i = Reach-In path i

  -- A run of such events only.
  pub Walk-Obeys :
      {A : Type 0} {s : Sys} {r : Outcome A} → Walk env Allowed ⊥ s r → In p s → Obeys (Still p) r
  Walk-Obeys {r = done a t} walk i = returns p (Reach-In walk.reach i) refl
  Walk-Obeys {r = exited n t} walk i = exits p (Reach-In walk.reach i)
  Walk-Obeys {r = fault f t} walk i = faults p (Reach-In walk.reach i)
  Walk-Obeys {r = unfinished t} walk i = absurd (walk.ending refl)
