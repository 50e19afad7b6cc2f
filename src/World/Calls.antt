-- ===== src/World/Calls.antt =====
-- The calls into the environment. Each reads its answer, appends its event, and lets a signal
-- arrive: the code reads `keep_running` only between calls, so a handler that runs at any moment
-- in between has the effect of one that runs at the end of the call before. A signal whose handler
-- is not installed is left out.
use tuya_daemon.Base.{ℕ, ◌+◌, Option, none, some, ◌∷◌, String, member, remove, if◌then◌else◌, ◌==◌}
use tuya_daemon.World.State.{
  Signal, sigint, sigterm, SignalHandler, CharPtr, unset, null, literal, block, Event, History, Sys,
}
use tuya_daemon.World.Environment.{Env}
use tuya_daemon.World.Program.{
  and_then, pure, ◌>>=◌, uninitialised, null_deref, use_after_free, bad_free, done, fault, Cmd,
  ◌>>◌, modify,
}

abbrev pub signum : Signal → ℕ
signum sigint = 2
signum sigterm = 15

-- The handler of a signal runs, if there is one.
abbrev pub deliver : Option Signal → Sys → Sys
deliver none s = s
deliver (some g) s = elim (s.handlers g) [
  | none ↦ s
  | some handler ↦ record s { keep_running = handler (signum g) s.keep_running }
]

abbrev pub install :
    Signal → SignalHandler → (Signal → Option SignalHandler) → Signal → Option SignalHandler
install sigint f hs sigint = some f
install sigint f hs sigterm = hs sigterm
install sigterm f hs sigint = hs sigint
install sigterm f hs sigterm = some f

module _ (env : Env) where
  -- The event of a call is appended, and a signal may arrive.
  unfoldable pub note : Event → Sys → Sys
  note e s = deliver (env.signal (e ∷ s.history)) (record s { history = e ∷ s.history })

  -- A call that is answered by `answer` and leaves the event that `event` makes of it.
  unfoldable pub call : {A : Type 0} → (History → A) → (A → Event) → Cmd A
  unfolding note
  call answer event s = let a = answer s.history in done a (note (event a) s)

  unfoldable pub tell : Event → Cmd (Unit {0})
  unfolding note
  tell e s = done tt (note e s)

  abbrev pub syslog : ℕ → String → Cmd (Unit {0})
  syslog priority format = tell (Event.syslog priority format)

  abbrev pub sleep : ℕ → Cmd (Unit {0})
  sleep seconds = tell (Event.sleep seconds)

  unfoldable pub sigaction : Signal → SignalHandler → Cmd (Unit {0})
  unfolding tell
  sigaction g f = do
    modify (λ s. record s { handlers = install g f s.handlers })
    tell (Event.sigaction g)

  -- A fresh heap block. Running out of memory is not modelled.
  unfoldable pub malloc : Cmd ℕ
  unfolding note
  malloc s =
      done s.fresh (
        note (Event.malloc s.fresh) (record s { blocks = s.fresh ∷ s.blocks; fresh = s.fresh + 1 }))

  -- Frees the block at an address.
  unfoldable pub free_block : ℕ → Cmd (Unit {0})
  unfolding note
  free_block a s =
      if member a s.blocks
      then done tt (note (Event.free a) (record s { blocks = remove a s.blocks }))
      else fault bad_free s

  -- `free`, on a `char *`.
  unfoldable pub free : CharPtr → Cmd (Unit {0})
  unfolding free_block
  free unset s = fault uninitialised s
  free null s = done tt s
  free (literal t) s = fault bad_free s
  free (block a t) s = free_block a s

  -- The text at a `char *`.
  unfoldable pub deref : CharPtr → Cmd String
  deref unset s = fault uninitialised s
  deref null s = fault null_deref s
  deref (literal t) s = done t s
  deref (block a t) s = if member a s.blocks then done t s else fault use_after_free s

  -- A library that is given an address uses what is there.
  unfoldable pub touch : ℕ → Cmd (Unit {0})
  touch a s =
      if a == 0
      then fault null_deref s
      else if member a s.blocks
      then done tt s
      else fault use_after_free s

  -- A library that is given a `char *` may read it, if it is not NULL.
  unfoldable pub lend : CharPtr → Cmd (Unit {0})
  unfolding deref
  lend unset s = fault uninitialised s
  lend null s = done tt s
  lend (literal t) s = done tt s
  lend (block a t) s = and_then (deref (block a t) s) (λ _. done tt)

  unfoldable pub strdup : String → Cmd CharPtr
  unfolding malloc
  strdup t = do a ← malloc; pure (block a t)
