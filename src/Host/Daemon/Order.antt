-- ===== src/Host/Daemon/Order.antt =====
-- tuya_daemon/become_daemon.c: the calls of the double fork in their order, and how it ends.
use tuya_daemon.Base.{
  ℕ, zero, suc, ◌≡◌, refl, ◌≢◌, ◌∷◌, ℤ, pos, negsuc, minus_one, minus_two, minus_three, minus_four,
  minus_five, minus_six, Bool-cases, inl, inr, false, true, arith, ==_iff, ◌∙◌, ap, ◌⊎◌,
}
use tuya_daemon.World.{Event, History, Sys, Env, Outcome, done, exited, Cmd, and_then, call, tell}
use tuya_daemon.World.Logic.{Returns, ends, runs, history-note}
use tuya_daemon.Host.Daemon.{
  fork_failed, in_child, in_parent, forked, is_minus_one, equals, redirect, leave_session,
  become_daemon,
}

-- The history of the process in its own session, which has left the group of its parent.
abbrev pub detached : ℤ → History → History
detached sid old =
    Event.closefrom 0
    ∷ Event.chdir "/"
    ∷ Event.umask 0
    ∷ Event.fork (pos 0)
    ∷ Event.setsid sid
    ∷ Event.fork (pos 0)
    ∷ old

-- The ends of `become_daemon`, each with the calls that it has made since `old`, newest first.
pub data Daemonised (old : History) : Outcome ℤ → Type 0 where
  no_child :
      {u : Sys}
      → u.history ≡ Event.perror "Call to fork() failed" ∷ Event.fork minus_one ∷ old
      → Daemonised old (done minus_one u)
  parent :
      (pid : ℤ) {u : Sys}
      → pid ≢ pos 0
      → pid ≢ minus_one
      → u.history ≡ Event.fork pid ∷ old
      → Daemonised old (exited 0 u)
  no_session :
      {u : Sys}
      → u.history ≡ Event.setsid minus_one ∷ Event.fork (pos 0) ∷ old
      → Daemonised old (done minus_two u)
  no_grandchild :
      (sid : ℤ) {u : Sys}
      → u.history ≡ Event.fork minus_one ∷ Event.setsid sid ∷ Event.fork (pos 0) ∷ old
      → Daemonised old (done minus_three u)
  leader :
      (sid pid : ℤ) {u : Sys}
      → pid ≢ pos 0
      → pid ≢ minus_one
      → u.history ≡ Event.fork pid ∷ Event.setsid sid ∷ Event.fork (pos 0) ∷ old
      → Daemonised old (exited 0 u)
  no_stdin :
      (sid fd : ℤ) {u : Sys}
      → fd ≢ pos 0
      → u.history ≡ Event.open_null fd ∷ detached sid old
      → Daemonised old (done minus_four u)
  no_stdout :
      (sid fd : ℤ) {u : Sys}
      → fd ≢ pos 1
      → u.history ≡ Event.dup 0 fd ∷ Event.open_null (pos 0) ∷ detached sid old
      → Daemonised old (done minus_five u)
  no_stderr :
      (sid fd : ℤ) {u : Sys}
      → fd ≢ pos 2
      → u.history
        ≡ Event.dup 0 fd ∷ Event.dup 0 (pos 1) ∷ Event.open_null (pos 0) ∷ detached sid old
      → Daemonised old (done minus_six u)
  ready :
      (sid : ℤ) {u : Sys}
      → u.history
        ≡ Event.dup 0 (pos 2) ∷ Event.dup 0 (pos 1) ∷ Event.open_null (pos 0) ∷ detached sid old
      → Daemonised old (done (pos 0) u)

-- A fact about what follows a run that returns.
follow :
    {A B : Type 0} {P : A → Sys → Type 0} {r : Outcome A} {k : A → Cmd B} (G : Outcome B → Type 0)
    → Returns P r
    → ((a : A) (s : Sys) → P a s → G (k a s))
    → G (and_then r k)
follow G (ends p) next = next _ _ p
follow G (runs h) next = absurd h

fork_cases :
    (pid : ℤ)
    → ((forked pid ≡ fork_failed) × (pid ≡ minus_one))
      ⊎ (((forked pid ≡ in_child) × (pid ≡ pos 0))
          ⊎ ((forked pid ≡ in_parent) × (pid ≢ pos 0) × (pid ≢ minus_one)))
fork_cases (pos zero) = inr (inl (refl, refl))
fork_cases (pos (suc n)) = inr (inr (refl, (λ e. cc), λ e. cc))
fork_cases (negsuc zero) = inl (refl, refl)
fork_cases (negsuc (suc n)) = inr (inr (refl, (λ e. cc), λ e. cc))

minus_one_cases : (r : ℤ) → is_minus_one r ≡ true → r ≡ minus_one
minus_one_cases (pos n) e = cc
minus_one_cases (negsuc zero) e = refl
minus_one_cases (negsuc (suc n)) e = cc

equals_iff : (r : ℤ) (m : ℕ) → equals r m ≡ true → r ≡ pos m
equals_iff (pos n) m e = ap pos ((==_iff n m).0 e)
equals_iff (negsuc n) m e = cc

equals_not : (r : ℤ) (m : ℕ) → equals r m ≡ false → r ≢ pos m
equals_not (pos n) m e same = ground arith
equals_not (negsuc n) m e same = cc

-- The next event, on top of a history that is known.
push : {g h h' : History} (e : Event) → g ≡ e ∷ h → h ≡ h' → g ≡ e ∷ h'
push e p q = p ∙ ap (λ (x : History). e ∷ x) q

module _ (env : Env) where
  call-History :
      {A : Type 0} (answer : History → A) (event : A → Event) (t : Sys)
      → Returns (λ a u. u.history ≡ event a ∷ t.history) (call env answer event t)
  unfolding call
  call-History answer event t = ends (history-note env _ t)

  tell-History : (e : Event) (t : Sys) → Returns (λ _ u. u.history ≡ e ∷ t.history) (tell env e t)
  unfolding tell
  tell-History e t = ends (history-note env e t)

  redirect-Daemonised :
      (sid : ℤ) (old : History) (t : Sys)
      → Event.closefrom 0 ∷ t.history ≡ detached sid old
      → Daemonised old (redirect env t)
  unfolding redirect
  redirect-Daemonised sid old t h =
      follow (Daemonised old) (tell-History (Event.closefrom 0) t) λ _ u h1.
        follow (Daemonised old) (call-History env.open_null Event.open_null u) λ fd0 u2 h2.
          elim (Bool-cases (equals fd0 0)) [
            | inr e ↦ rw e (no_stdin sid fd0 (equals_not fd0 0 e) (push _ h2 (h1 ∙ h)))
            | inl e ↦ rw e (
                follow (Daemonised old) (call-History env.dup (Event.dup 0) u2) λ fd1 u3 h3.
                  let k =
                    push _ (h2 ∙ ap (λ (x : ℤ). Event.open_null x ∷ u.history) (equals_iff fd0 0 e))
                      (h1 ∙ h) in
                  elim (Bool-cases (equals fd1 1)) [
                    | inr e1 ↦ rw e1 (no_stdout sid fd1 (equals_not fd1 1 e1) (push _ h3 k))
                    | inl e1 ↦ rw e1 (
                        follow (Daemonised old) (call-History env.dup (Event.dup 0) u3) λ fd2 u4 h4.
                          let k1 =
                            push _
                              (h3
                                ∙ ap (λ (x : ℤ). Event.dup 0 x ∷ u2.history) (equals_iff fd1 1 e1))
                              k in
                          elim (Bool-cases (equals fd2 2)) [
                            | inr e2 ↦
                                rw e2 (no_stderr sid fd2 (equals_not fd2 2 e2) (push _ h4 k1))
                            | inl e2 ↦ rw e2 (
                                ready sid (
                                  push _
                                    (h4
                                      ∙ ap (λ (x : ℤ). Event.dup 0 x ∷ u3.history)
                                          (equals_iff fd2 2 e2))
                                    k1))
                          ])
                  ])
          ]

  leave_session-Daemonised :
      (sid : ℤ) (old : History) (t : Sys)
      → t.history ≡ Event.setsid sid ∷ Event.fork (pos 0) ∷ old
      → Daemonised old (leave_session env t)
  unfolding leave_session
  leave_session-Daemonised sid old t h =
      follow (Daemonised old) (call-History env.fork Event.fork t) λ pid u h1.
        elim (fork_cases pid) [
          | inl (e, p) ↦
              rw e (no_grandchild sid (push _ (h1 ∙ ap (λ (x : ℤ). Event.fork x ∷ t.history) p) h))
          | inr (inr (e, n0, n1)) ↦ rw e (leader sid pid n0 n1 (push _ h1 h))
          | inr (inl (e, p)) ↦ rw e (
              follow (Daemonised old) (tell-History (Event.umask 0) u) λ _ u2 h2.
                follow (Daemonised old) (tell-History (Event.chdir "/") u2) λ _ u3 h3.
                  redirect-Daemonised sid old u3 (
                    ap (λ (x : History). Event.closefrom 0 ∷ x)
                      (push _ h3
                        (push _ h2 (push _ (h1 ∙ ap (λ (x : ℤ). Event.fork x ∷ t.history) p) h)))))
        ]

  -- From every state: `become_daemon` ends in one of nine ways, each with exactly the calls that it
  -- has made, in their order. It returns -1 only after a failed first `fork`, -2 after a failed
  -- `setsid`, -3 after a failed second `fork`, -4, -5 and -6 when /dev/null does not become the
  -- file 0, 1 or 2, and 0 only when all of these have succeeded, with the mask cleared, the
  -- directory changed and the files closed in between; a process that is the parent of either fork
  -- exits with the status 0.
  pub become_daemon-Daemonised : (t : Sys) → Daemonised t.history (become_daemon env t)
  unfolding become_daemon
  become_daemon-Daemonised t =
      follow (Daemonised t.history) (call-History env.fork Event.fork t) λ pid u h.
        elim (fork_cases pid) [
          | inl (e, p) ↦ rw e (
              follow (Daemonised t.history) (tell-History (Event.perror "Call to fork() failed") u)
                λ _ u2 h2. no_child (push _ h2 (h ∙ ap (λ (x : ℤ). Event.fork x ∷ t.history) p)))
          | inr (inr (e, n0, n1)) ↦ rw e (parent pid n0 n1 h)
          | inr (inl (e, p)) ↦ rw e (
              let k = h ∙ ap (λ (x : ℤ). Event.fork x ∷ t.history) p in
              follow (Daemonised t.history) (call-History env.setsid Event.setsid u) λ sid u2 h2.
                elim (Bool-cases (is_minus_one sid)) [
                  | inl e1 ↦ rw e1 (
                      no_session (
                        push _
                          (h2 ∙ ap (λ (x : ℤ). Event.setsid x ∷ u.history) (minus_one_cases sid e1))
                          k))
                  | inr e1 ↦ rw e1 (leave_session-Daemonised sid t.history u2 (push _ h2 k))
                ])
        ]
