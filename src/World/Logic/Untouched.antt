-- ===== src/World/Logic/Untouched.antt =====
-- What the calls into the environment leave alone.
use tuya_daemon.Base.{
  ℕ, ◌≡◌, refl, true, List, ◌∷◌, String, arith, member, Bool-cases, inl, inr, ==_refl, ◌==◌, false,
  Option, some, ◌≢◌, none, ap, sym, ◌∙◌,
}
use tuya_daemon.World.State.{
  CharPtr, unset, null, literal, block, Event, History, Sys, Signal, SignalHandler,
}
use tuya_daemon.World.Environment.{Env}
use tuya_daemon.World.Calls.{note, tell, call, malloc, free_block, deref, lend, touch, deliver}
use tuya_daemon.World.Logic.Outcomes.{Returns, ends}
use tuya_daemon.World.Logic.Views.{
  IsReadable, is_lifecycle, is_mark, is_true, unsent, lifecycle, View, with_blocks, Quits, marked,
  At,
}

-- The postcondition "the view is `v`", whatever is returned.
abbrev pub Keeps : {A : Type 0} → View → A → Sys → Type 0
Keeps v _ t = At v t

deliver-stopped :
    (o : Option Signal) (s : Sys)
    → Quits s.handlers
    → s.keep_running ≢ 1
    → (deliver o s).keep_running ≢ 1
deliver-stopped none s quits stopped = stopped
deliver-stopped (some g) s quits stopped = handle (s.handlers g) refl
  where
    handle : (o : Option SignalHandler) → s.handlers g ≡ o → (deliver (some g) s).keep_running ≢ 1
    handle none e = rw (e, deliver) stopped
    handle (some f) e = rw (e, deliver) (quits g f e _ _)

marks :
    (e : Event) → is_mark e ≡ true → (h : History) → (is_lifecycle e ≡ true) × (is_true e h ≡ true)
marks (Event.syslog p t) m h = absurd (cc)
marks (Event.sleep _) m h = (refl, refl)
marks (Event.mqtt_init _) m h = (refl, refl)
marks (Event.mqtt_connect _) m h = (refl, refl)
marks (Event.mqtt_loop _) m h = (refl, refl)
marks (Event.mqtt_disconnect _) m h = (refl, refl)
marks (Event.mqtt_deinit _) m h = (refl, refl)
marks (Event.mqtt_connected _) m h = (refl, refl)
marks _ m h = absurd (cc)

module _ (env : Env) where
  pub At-note :
      {v : View} {s : Sys} (e : Event) → is_lifecycle e ≡ false → At v s → At v (note env e s)
  unfolding note lifecycle
  At-note {s} e silent at = ground arith

  pub At-mark :
      {v : View} {s : Sys} (e : Event) → is_mark e ≡ true → At v s → At (marked e v) (note env e s)
  unfolding note lifecycle
  At-mark {s} e mark at = let (seen, stands) = marks e mark s.history in ground arith

  -- The notice of a failed report, after a report that has failed.
  pub At-notice :
      {v : View} {s : Sys} (p : ℕ) (format : String)
      → is_lifecycle (Event.syslog p format) ≡ true
      → unsent s.history ≡ true
      → At v s
      → At (marked (Event.syslog p format) v) (note env (Event.syslog p format) s)
  unfolding note lifecycle
  At-notice {s} p format seen failed at = ground arith

  pub note-stopped :
      (e : Event) (s : Sys)
      → Quits s.handlers
      → s.keep_running ≢ 1
      → (note env e s).keep_running ≢ 1
  unfolding note
  note-stopped e s quits stopped = deliver-stopped (env.signal (e ∷ s.history)) _ quits stopped

  pub history-note : (e : Event) (s : Sys) → (note env e s).history ≡ e ∷ s.history
  unfolding note
  history-note e s = ground arith

module _ (env : Env) {v : View} {t : Sys} (at : At v t) where
  pub tell-Keeps : (e : Event) → is_lifecycle e ≡ false → Returns (Keeps v) (tell env e t)
  unfolding tell
  tell-Keeps e silent = ends (At-note env e silent at)

  pub tell-Marks : (e : Event) → is_mark e ≡ true → Returns (Keeps (marked e v)) (tell env e t)
  unfolding tell
  tell-Marks e seen = ends (At-mark env e seen at)

  pub tell-Records :
      (e : Event)
      → is_mark e ≡ true
      → Returns (λ _ u. At (marked e v) u × (u.history ≡ e ∷ t.history)) (tell env e t)
  unfolding tell
  tell-Records e seen = ends (At-mark env e seen at, history-note env e t)

  pub tell-Notice :
      (p : ℕ) (format : String)
      → is_lifecycle (Event.syslog p format) ≡ true
      → unsent t.history ≡ true
      → Returns (Keeps (marked (Event.syslog p format) v)) (tell env (Event.syslog p format) t)
  unfolding tell
  tell-Notice p format seen failed = ends (At-notice env p format seen failed at)

  pub call-Keeps :
      {A : Type 0} (answer : History → A) (event : A → Event)
      → ((a : A) → is_lifecycle (event a) ≡ false)
      → Returns (λ a u. At v u × (a ≡ answer t.history)) (call env answer event t)
  unfolding call
  call-Keeps answer event silent = ends (At-note env _ (silent _) at, refl)

  pub call-Marks :
      {A : Type 0} (answer : History → A) (event : A → Event)
      → ((a : A) → is_mark (event a) ≡ true)
      → Returns
          (λ a u. At (marked (event a) v) u × (a ≡ answer t.history))
          (call env answer event t)
  unfolding call
  call-Marks answer event seen = ends (At-mark env _ (seen _) at, refl)

  pub call-Records :
      {A : Type 0} (answer : History → A) (event : A → Event)
      → ((a : A) → is_mark (event a) ≡ true)
      → Returns
          (λ a u. At (marked (event a) v) u × (u.history ≡ event a ∷ t.history))
          (call env answer event t)
  unfolding call
  call-Records answer event seen = ends (At-mark env _ (seen _) at, history-note env _ t)

  pub malloc-Keeps : Returns (λ a u. At (with_blocks (a ∷ v.blocks) v) u) (malloc env t)
  unfolding malloc
  malloc-Keeps = ends (At-note env _ refl (ground arith))

  live : (a : ℕ) → member a v.blocks ≡ true → member a t.blocks ≡ true
  live a h = rw at.blocks h

  pub lend-Keeps : (p : CharPtr) → IsReadable v.blocks p → Returns (Keeps v) (lend env p t)
  unfolding lend deref
  lend-Keeps null h = ends at
  lend-Keeps unset h = absurd h
  lend-Keeps (literal x) h = ends at
  lend-Keeps (block a x) h = rw (live a h) (ends at)

  -- A daemon that has been told to stop stays so.
  pub tell-Stays :
      (e : Event)
      → is_lifecycle e ≡ false
      → Quits v.handlers
      → t.keep_running ≢ 1
      → Returns (λ _ u. At v u × (u.keep_running ≢ 1)) (tell env e t)
  unfolding tell
  tell-Stays e silent quits stopped = ends (
    At-note env e silent at,
    note-stopped env e t
        (λ g f h.
          quits g f (ap (λ (hs : Signal → Option SignalHandler). hs g) (sym at.handlers) ∙ h))
        stopped,
  )

  -- Frees the newest of the live blocks.
  pub free_block-Keeps :
      (a : ℕ) (bs : List ℕ)
      → v.blocks ≡ a ∷ bs
      → Returns (Keeps (with_blocks bs v)) (free_block env a t)
  unfolding free_block
  free_block-Keeps a bs h = rw (at.blocks, h, ==_refl a) (ends (At-note env _ refl (ground arith)))

  -- Frees the block below the newest.
  pub free_second-Keeps :
      (a b : ℕ) (bs : List ℕ)
      → v.blocks ≡ a ∷ b ∷ bs
      → Returns (Keeps (with_blocks (a ∷ bs) v)) (free_block env b t)
  unfolding free_block
  free_second-Keeps a b bs h = elim (Bool-cases (b == a)) [
    | inl same ↦ rw (at.blocks, h, same) (ends (At-note env _ refl (ground arith)))
    | inr other ↦ rw (at.blocks, h, other, ==_refl b) (ends (At-note env _ refl (ground arith)))
  ]

  pub deref-Keeps :
      (a : ℕ) (text : String)
      → member a v.blocks ≡ true
      → Returns (λ r u. At v u × (r ≡ text)) (deref env (block a text) t)
  unfolding deref
  deref-Keeps a text h = rw (live a h) (ends (at, refl))

  pub touch-Keeps :
      (a : ℕ) → (a == 0) ≡ false → member a v.blocks ≡ true → Returns (Keeps v) (touch env a t)
  unfolding touch
  touch-Keeps a nz h = rw (nz, live a h) (ends at)
