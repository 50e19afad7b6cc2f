-- ===== src/Openwrt/Main/Starts.antt =====
-- openwrt/tuya_daemon/src/main.c: for which options the daemon starts, and with which.
use tuya_daemon.Base.{true, ℕ, ◌+◌, ◌≡◌, refl, sym, ◌∙◌, ap, subst, Option, String, ℤ, arith}
use tuya_daemon.World.{Bytes, Outcome, done, Sys, Env, Cmd, block, and_then}
use tuya_daemon.World.Logic
use tuya_daemon.World.Logic.{
  Returns, ends, runs, View, At, At-view, view, lifecycle, with_blocks, tell-Keeps, call-Keeps,
}
use tuya_daemon.World.Steps.Install.{handlers-Installed}
use tuya_daemon.Openwrt.Signals.{signal_handler}
use tuya_daemon.Openwrt.Main.{exit_failure, run_daemon, run_mqtt, main}
use tuya_daemon.Openwrt.Main.Names.{
  with_four, Holds, Holds-with_four, without, without-with_four, strdup-Named,
}
use tuya_daemon.Openwrt.Main.Whole.{clean_up, clean_up-Frees}
use tuya_daemon.Openwrt.Main.Decided.{
  Settings, Accepts, Rejects, Decides, starts, refuses, run_daemon-Decides,
}

-- What `main` does from the label `cleanup_end` on, with the copies of the names at `f`.
abbrev pub end_with : Env → ℕ → ℤ → Cmd ℤ
end_with env f =
    clean_up env true (block f "tuya.tuya_daemon.device_id")
      (block (f + 1) "tuya.tuya_daemon.device_secret") (block (f + 2) "tuya.tuya_daemon.product_id")
      (block (f + 3) "tuya.tuya_daemon.log_level")

-- The two ways of a run from `s`: accepted and served, or refused.
pub data Starts (env : Env) (options : String → Option Bytes) (fuel : ℕ) (s : Sys)
    : Outcome ℤ → Type 0 where
  accepted :
      {r : Outcome ℤ} (id secret : Bytes) (f : ℕ) (u : Sys)
      → Accepts options id secret
      → lifecycle u.history ≡ lifecycle s.history
      → r ≡ and_then (run_mqtt env fuel id secret u) (end_with env f)
      → Starts env options fuel s r
  refused :
      {u : Sys}
      → Rejects options
      → lifecycle u.history ≡ lifecycle s.history
      → u.blocks ≡ s.blocks
      → Starts env options fuel s (done exit_failure u)

module _ (env : Env) {options : String → Option Bytes} (settings : Settings env options) (fuel : ℕ)
    (s : Sys) where
  finish-Starts :
      {r : Outcome ℤ}
      → Rejects options
      → Returns
          (λ a u.
            (a ≡ exit_failure)
            × (lifecycle u.history ≡ lifecycle s.history)
            × (u.blocks ≡ s.blocks))
          r
      → Starts env options fuel s r
  finish-Starts rejects (ends {s = u} (e, same, kept)) =
      subst (λ (a : ℤ). Starts env options fuel s (done a u)) (sym e) (refused rejects same kept)
  finish-Starts rejects (runs h) = absurd h

  decided-Starts :
      (f : ℕ) {w : View} {r : Outcome ℤ}
      → w.blocks ≡ with_four f s.blocks
      → w.trace ≡ lifecycle s.history
      → Decides env options fuel w r
      → Starts env options fuel s (and_then r (end_with env f))
  decided-Starts f mine same (starts id secret u ok k e) =
      accepted id secret f u ok (k.trace ∙ same)
        (ap (λ (x : Outcome ℤ). and_then x (end_with env f)) e)
  decided-Starts f mine same (refuses {u = u} rejects k) = finish-Starts rejects (
      Logic.mono
        (clean_up-Frees env f _ _ _ _ exit_failure u
          (subst (Holds f) (sym mine) (Holds-with_four f s.blocks)) k)
        λ a x (e, k').
          (e, k'.trace ∙ same, k'.blocks ∙ (ap (without f) mine ∙ without-with_four f s.blocks)))

  named-Starts :
      (f : ℕ) {w : View} (t : Sys)
      → w.blocks ≡ with_four f s.blocks
      → w.trace ≡ lifecycle s.history
      → At w t
      → Starts env options fuel s (
          and_then
            (run_daemon env fuel true
              (block f "tuya.tuya_daemon.device_id")
              (block (f + 1) "tuya.tuya_daemon.device_secret")
              (block (f + 2) "tuya.tuya_daemon.product_id")
              (block (f + 3) "tuya.tuya_daemon.log_level")
              t)
            (end_with env f))
  named-Starts f t mine same at = decided-Starts f mine same (
      run_daemon-Decides env settings fuel f t
        (subst (Holds f) (sym mine) (Holds-with_four f s.blocks)) at)

  after_Starts :
      {A : Type 0} {P : A → Sys → Type 0} {r : Outcome A} {k : A → Cmd ℤ}
      → Returns P r
      → ((a : A) (u : Sys) → P a u → Starts env options fuel s (k a u))
      → Starts env options fuel s (and_then r k)
  after_Starts (ends p) rest = rest _ _ p
  after_Starts (runs h) rest = absurd h

  -- Condition: the UCI context can be allocated, and UCI has the same options for as long as the
  -- daemon runs. If it has a device id, a device secret and a product id, and the log level is the
  -- one byte of a digit of at most 7, then `main` goes on with `run_mqtt` for exactly this device
  -- id and this secret, with no call in its lifecycle before, and then with its clean-up. Otherwise
  -- it returns EXIT_FAILURE, with no call in its lifecycle and the live blocks of before.
  pub main-Starts : Starts env options fuel s (main env fuel s)
  unfolding main
  main-Starts = after_Starts (handlers-Installed env signal_handler s) λ _ b (kb, _).
      after_Starts (tell-Keeps env kb _ refl) λ _ c kc.
        after_Starts (strdup-Named env kc "tuya.tuya_daemon.device_id") λ p0 d (kd, (e0, g0)).
          after_Starts (strdup-Named env kd "tuya.tuya_daemon.device_secret") λ p1 e (ke, (e1, g1)).
            after_Starts (strdup-Named env ke "tuya.tuya_daemon.product_id") λ p2 f (kf, (e2, g2)).
              after_Starts (strdup-Named env kf "tuya.tuya_daemon.log_level") λ p3 g (kg, (e3, g3)).
                let f1 : d.fresh ≡ c.fresh + 1 = g0 in
                let f2 : e.fresh ≡ c.fresh + 2 = omega arith in
                let f3 : f.fresh ≡ c.fresh + 3 = omega arith in
                after_Starts (call-Keeps env kg env.uci_alloc_context _ (λ _. refl))
                  λ have h (kh, eh).
                    rw (e0, e1, e2, e3, f1, f2, f3, eh, settings.alloc g.history)
                      (named-Starts c.fresh h (rw (f3, f2, f1) refl) refl kh)
