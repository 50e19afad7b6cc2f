-- ===== src/Host/Daemon.antt =====
-- tuya_daemon/become_daemon.c: the double fork.
pub mod Order
use tuya_daemon.Base.{
  ℕ, zero, suc, Bool, false, not, ℤ, pos, negsuc, minus_one, minus_two, minus_three, minus_four,
  minus_five, minus_six, ◌==◌, if◌then◌else◌, true,
}
use tuya_daemon.World.{Event, Env, exited, Cmd, pure, ◌>>=◌, ◌>>◌, call, tell}

-- The three ways out of a `switch (fork())`.
pub data Forked : Type 0 where
  fork_failed in_child in_parent : Forked

abbrev pub forked : ℤ → Forked
forked (pos zero) = in_child
forked (pos (suc n)) = in_parent
forked (negsuc zero) = fork_failed
forked (negsuc (suc n)) = in_parent

-- The test `r == -1`.
abbrev pub is_minus_one : ℤ → Bool
is_minus_one (pos n) = false
is_minus_one (negsuc zero) = true
is_minus_one (negsuc (suc n)) = false

-- The test `r == m`.
abbrev pub equals : ℤ → ℕ → Bool
equals (pos n) m = n == m
equals (negsuc n) m = false

module _ (env : Env) where
  -- From `closefrom` to the end.
  unfoldable pub redirect : Cmd ℤ
  redirect = do
    tell env (Event.closefrom 0)
    stdin ← call env env.open_null Event.open_null
    if not (equals stdin 0) then pure minus_four else (do
      stdout ← call env env.dup (Event.dup 0)
      if not (equals stdout 1) then pure minus_five else (do
        stderr ← call env env.dup (Event.dup 0)
        if not (equals stderr 2) then pure minus_six else pure (pos 0)))

  -- From the second `fork` to the end.
  unfoldable pub leave_session : Cmd ℤ
  leave_session = do
    pid ← call env env.fork Event.fork
    elim (forked pid) [
      | fork_failed ↦ pure minus_three
      | in_parent ↦ exited 0
      | in_child ↦ do tell env (Event.umask 0); tell env (Event.chdir "/"); redirect
    ]

  unfoldable pub become_daemon : Cmd ℤ
  become_daemon = do
    pid ← call env env.fork Event.fork
    elim (forked pid) [
      | fork_failed ↦ do tell env (Event.perror "Call to fork() failed"); pure minus_one
      | in_parent ↦ exited 0
      | in_child ↦ do
        sid ← call env env.setsid Event.setsid
        if is_minus_one sid then pure minus_two else leave_session
    ]
