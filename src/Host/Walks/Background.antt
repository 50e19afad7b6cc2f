-- ===== src/Host/Walks/Background.antt =====
-- The runs of the PC daemon as steps: tuya_daemon/become_daemon.c.
use tuya_daemon.Base.{not}
use tuya_daemon.World.{Event, Env, Sys, Cmd}
use tuya_daemon.World.Steps.{Walk, pure-Walk, exited-Walk, if-Walk, bind, tell-Walk, call-Walk}
use tuya_daemon.Host.Daemon.{
  Forked, fork_failed, in_child, in_parent, forked, is_minus_one, equals, redirect, leave_session,
  become_daemon,
}
use tuya_daemon.Host.Walks.{Local}

-- The steps of `become_daemon`.
abbrev pub Daemonising : Event → Type 0
Daemonising (Event.fork _) = Unit
Daemonising (Event.setsid _) = Unit
Daemonising (Event.umask _) = Unit
Daemonising (Event.chdir _) = Unit
Daemonising (Event.closefrom _) = Unit
Daemonising (Event.open_null _) = Unit
Daemonising (Event.dup _ _) = Unit
Daemonising _ = ⊥

module _ {env : Env} {Allowed : Event → Type 0} {Loops : Type 0}
    (base : (e : Event) → Local e → Allowed e)
    (daemon : (e : Event) → Daemonising e → Allowed e) where
  redirect-Walk : {s : Sys} → Walk env Allowed Loops s (redirect env s)
  unfolding redirect
  redirect-Walk = bind (tell-Walk _ (daemon _ tt)) λ _ u.
      bind (call-Walk _ _ (λ _. daemon _ tt)) λ stdin v.
        if-Walk (not (equals stdin 0)) _ _ pure-Walk (
          bind (call-Walk _ _ (λ _. daemon _ tt)) λ stdout w.
            if-Walk (not (equals stdout 1)) _ _ pure-Walk (
              bind (call-Walk _ _ (λ _. daemon _ tt))
                λ stderr x. if-Walk (not (equals stderr 2)) _ _ pure-Walk pure-Walk))

  forked-Walk :
      {A : Type 0} {s : Sys} (f : Forked) (m n k : Cmd A)
      → Walk env Allowed Loops s (m s)
      → Walk env Allowed Loops s (n s)
      → Walk env Allowed Loops s (k s)
      → Walk env Allowed Loops s
          ((elim f as (λ _. Cmd A) [ fork_failed ↦ m | in_child ↦ n | in_parent ↦ k ]) s)
  forked-Walk fork_failed m n k walk other rest = walk
  forked-Walk in_child m n k other walk rest = walk
  forked-Walk in_parent m n k other rest walk = walk

  leave-Walk : {s : Sys} → Walk env Allowed Loops s (leave_session env s)
  unfolding leave_session
  leave-Walk = bind (call-Walk _ _ (λ _. daemon _ tt)) λ pid u.
      forked-Walk (forked pid) _ _ _ pure-Walk
        (bind (tell-Walk _ (daemon _ tt))
          λ _ v. bind (tell-Walk _ (daemon _ tt)) λ _ w. redirect-Walk)
        exited-Walk

  pub become_daemon-Walk : {s : Sys} → Walk env Allowed Loops s (become_daemon env s)
  unfolding become_daemon
  become_daemon-Walk = bind (call-Walk _ _ (λ _. daemon _ tt)) λ pid u.
      forked-Walk (forked pid) _ _ _ (bind (tell-Walk _ (base _ tt)) λ _ v. pure-Walk)
        (bind (call-Walk _ _ (λ _. daemon _ tt))
          λ sid v. if-Walk (is_minus_one sid) _ _ pure-Walk leave-Walk)
        exited-Walk
