-- ===== src/Openwrt/Main/Configured.antt =====
-- openwrt/tuya_daemon/src/main.c: from the parsed options to the label `cleanup_end`.
use tuya_daemon.Base.{
  Bool, ℕ, ◌≤◌, ◌≡◌, refl, inl, inr, true, Option, none, some, String, ℤ, arith, Bool-cases,
  Option-cases, member,
}
use tuya_daemon.World.{
  Bytes, Event, Sys, Env, block, Cmd, syslog, log_err, log_debug, log_upto, tell, pure, ◌>>◌,
}
use tuya_daemon.World.Logic
use tuya_daemon.World.Logic.{
  Ends, Returns, ends, runs, of_Returns, View, At, At-note, At-view, view, Quits, lifecycle,
  with_blocks, tell-Keeps, call-Keeps, Keeps,
}
use tuya_daemon.World.Trace.{attempts}
use tuya_daemon.World.Steps.Fresh.{Returns-fresh}
use tuya_daemon.Openwrt.Args.{uci_get_option, str_to_digit}
use tuya_daemon.Openwrt.Args.Options.{uci_get_option-Value}
use tuya_daemon.Openwrt.Walks.{uci_get_option-Walk, own, told}
use tuya_daemon.Openwrt.Connection.Memory.{Services}
use tuya_daemon.Openwrt.Connection.Retries.{StaysUp}
use tuya_daemon.Openwrt.Main.{
  exit_failure, valid_level, all_options, configured, run_daemon, priority_at, run_mqtt,
}
use tuya_daemon.Openwrt.Main.Closing.{Farewell, Shut, run_mqtt-Shut}

-- The end of a run: it is rejected before the library is opened, or the library is closed.
pub data Finished (env : Env) (v : View) : ℤ → Sys → Type 0 where
  rejected : {u : Sys} → At v u → Finished env v exit_failure u
  served : {r : ℤ} {u : Sys} → Shut env v.blocks v u → Finished env v r u

module _ (env : Env) (services : Services env) (up : StaysUp env) (farewell : Farewell env)
    (fuel : ℕ) {v : View} (unused : attempts v.trace ≡ 0) (quits : Quits v.handlers) where
  configured-Finished :
      (id secret level : Bytes) (t : Sys)
      → 1 ≤ t.fresh
      → At v t
      → Ends (Finished env v) (λ _. Unit) (configured env fuel id secret level t)
  unfolding configured
  configured-Finished id secret level t positive at = levelled (valid_level (str_to_digit level))
    where
      levelled :
          (o : Option ℕ)
          → Ends
              (Finished env v)
              (λ _. Unit)
              ((elim o as (λ _. Cmd ℤ) [
                | none ↦ do
                  syslog env log_err "Unrecognized value for option 'log_level': %s"
                  pure exit_failure
                | some log_level ↦ do
                  tell env (Event.setlogmask (log_upto (priority_at log_level)))
                  syslog env log_debug
                      "Options: device ID: %s, device secret: %s, product ID: %s, log_level: %d"
                  run_mqtt env fuel id secret
              ])
                t)
      levelled none = Logic.bind (of_Returns (tell-Keeps env at _ refl)) λ _ u k. ends (rejected k)
      levelled (some l) =
          Logic.bind (of_Returns (Returns-fresh (told own _ tt) (tell-Keeps env at _ refl)))
            λ _ u (k, f).
              Logic.bind (of_Returns (Returns-fresh (told own _ tt) (tell-Keeps env k _ refl)))
                λ _ u1 (k1, f1).
                  Logic.map-Ends
                    (run_mqtt-Shut env services up farewell fuel unused quits id secret u1
                      (omega arith) k1)
                    (λ _ _ shut. served shut) (λ _ _. tt)

  pub run_daemon-Finished :
      (have : Bool) (a0 a1 a2 a3 : ℕ) (n0 n1 n2 n3 : String) (t : Sys)
      → 1 ≤ t.fresh
      → member a0 v.blocks ≡ true
      → member a1 v.blocks ≡ true
      → member a2 v.blocks ≡ true
      → member a3 v.blocks ≡ true
      → At v t
      → Ends
          (Finished env v)
          (λ _. Unit)
          (run_daemon env fuel have (block a0 n0) (block a1 n1) (block a2 n2) (block a3 n3) t)
  unfolding run_daemon
  run_daemon-Finished have a0 a1 a2 a3 n0 n1 n2 n3 u positive l0 l1 l2 l3 k =
      elim (Bool-cases have) [
        | inr lacking ↦
            rw lacking
              (Logic.bind (of_Returns (tell-Keeps env k _ refl)) λ _ u1 k1. ends (rejected k1))
        | inl there ↦ rw there (
            Logic.bind (of_Returns (option u a0 n0 _ k l0)) λ id x0 (k0, f0).
              Logic.bind (of_Returns (option x0 a1 n1 _ k0 l1)) λ secret x1 (k1, f1).
                Logic.bind (of_Returns (option x1 a2 n2 _ k1 l2)) λ product x2 (k2, f2).
                  Logic.bind (of_Returns (option x2 a3 n3 _ k2 l3)) λ level x3 (k3, f3).
                    elim (Option-cases (all_options id secret product level)) [
                      | inl missing ↦ rw missing (ends (rejected k3))
                      | inr (o, all) ↦ rw all (configured-Finished _ _ _ x3 (omega arith) k3)
                    ])
      ]
    where
      option :
          (x : Sys) (a : ℕ) (n m : String)
          → At v x
          → member a v.blocks ≡ true
          → Returns (λ _ u. At v u × (x.fresh ≤ u.fresh)) (uci_get_option env (block a n) m x)
      option x a n m k live =
          Returns-fresh (uci_get_option-Walk own (block a n) m)
            (Logic.mono (uci_get_option-Value env a n m k live) λ _ u (k', _). k')
