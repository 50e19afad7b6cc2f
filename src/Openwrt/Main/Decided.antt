-- ===== src/Openwrt/Main/Decided.antt =====
-- openwrt/tuya_daemon/src/main.c: for which options `run_daemon` goes on to open the library.
use tuya_daemon.Base.{
  ℕ, ◌+◌, ◌≤◌, ◌≡◌, refl, sym, ◌∙◌, ap, inl, inr, true, Option, none, some, Option-cases,
  some-injective, [], ◌∷◌, String, ℤ, arith, member,
}
use tuya_daemon.World.{
  Bytes, Event, History, Outcome, done, Sys, Env, Cmd, block, syslog, log_err, log_debug, log_upto,
  tell, pure, ◌>>◌, and_then,
}
use tuya_daemon.World.Logic
use tuya_daemon.World.Logic.{
  Returns, ends, runs, View, At, At-view, view, lifecycle, with_blocks, tell-Keeps, call-Keeps,
}
use tuya_daemon.Openwrt.Args.{uci_get_option, str_to_digit}
use tuya_daemon.Openwrt.Args.Options.{option_value, uci_get_option-Value}
use tuya_daemon.Openwrt.Main.{
  exit_failure, valid_level, all_options, configured, run_daemon, priority_at, run_mqtt,
}
use tuya_daemon.Openwrt.Main.LogLevel.{log_level_iff}
use tuya_daemon.Openwrt.Main.Names.{Holds}

-- UCI can be opened, and it has the options `options` for as long as the daemon runs:
-- a lookup that is found, complete and of a string has the value, and any other has none.
pub record Settings (env : Env) (options : String → Option Bytes) : Type 0 where
  pub alloc : (h : History) → env.uci_alloc_context h ≡ true
  pub value :
      (h : History) (name : String)
      → option_value (env.uci_lookup_ptr h name) (env.uci_ptr h name) ≡ options name

-- The options that the daemon needs: two that it uses, one that must be there, and a digit.
pub record Accepts (options : String → Option Bytes) (id secret : Bytes) : Type 0 where
  pub device_id : options "tuya.tuya_daemon.device_id" ≡ some id
  pub device_secret : options "tuya.tuya_daemon.device_secret" ≡ some secret
  pub product_id : (product : Bytes) × (options "tuya.tuya_daemon.product_id" ≡ some product)
  pub log_level : (n : ℕ) × (n ≤ 7) × (options "tuya.tuya_daemon.log_level" ≡ some ((48 + n) ∷ []))

-- No device id and secret are accepted.
abbrev pub Rejects : (String → Option Bytes) → Type 0
Rejects options = (id secret : Bytes) → Accepts options id secret → ⊥

-- A run either fails, in the view `v`, or goes on with `run_mqtt`.
pub data Decides (env : Env) (options : String → Option Bytes) (fuel : ℕ) (v : View)
    : Outcome ℤ → Type 0 where
  starts :
      {r : Outcome ℤ} (id secret : Bytes) (u : Sys)
      → Accepts options id secret
      → At v u
      → r ≡ run_mqtt env fuel id secret u
      → Decides env options fuel v r
  refuses : {u : Sys} → Rejects options → At v u → Decides env options fuel v (done exit_failure u)

-- All four options are there, or one of them is missing.
all_options-eq :
    (a b c d : Option Bytes) {o : Bytes × Bytes × Bytes × Bytes}
    → all_options a b c d ≡ some o
    → (a ≡ some o.0) × (b ≡ some o.1) × (c ≡ some o.2) × (d ≡ some o.3)
all_options-eq (some a) (some b) (some c) (some d) h = ground arith
all_options-eq none b c d h = absurd (cc)
all_options-eq (some a) none c d h = absurd (cc)
all_options-eq (some a) (some b) none d h = absurd (cc)
all_options-eq (some a) (some b) (some c) none h = absurd (cc)

missing :
    (a b c d : Option Bytes) (w x y z : Bytes)
    → all_options a b c d ≡ none
    → a ≡ some w
    → b ≡ some x
    → c ≡ some y
    → d ≡ some z
    → ⊥
missing a b c d w x y z h p q r s = ground arith

module _ (env : Env) {options : String → Option Bytes} (settings : Settings env options) (fuel : ℕ)
    {v : View} where
  after :
      {A : Type 0} {P : A → Sys → Type 0} {r : Outcome A} {k : A → Cmd ℤ}
      → Returns P r
      → ((a : A) (u : Sys) → P a u → Decides env options fuel v (k a u))
      → Decides env options fuel v (and_then r k)
  after (ends p) rest = rest _ _ p
  after (runs h) rest = absurd h

  configured-Decides :
      (id secret product level : Bytes) (t : Sys)
      → At v t
      → options "tuya.tuya_daemon.device_id" ≡ some id
      → options "tuya.tuya_daemon.device_secret" ≡ some secret
      → options "tuya.tuya_daemon.product_id" ≡ some product
      → options "tuya.tuya_daemon.log_level" ≡ some level
      → Decides env options fuel v (configured env fuel id secret level t)
  unfolding configured
  configured-Decides id secret product level t at e0 e1 e2 e3 =
      levelled (valid_level (str_to_digit level)) refl
    where
      rejects : valid_level (str_to_digit level) ≡ none → Rejects options
      rejects bad id' secret' ok =
          let (n, small, e) = ok.log_level in
          let same : level ≡ (48 + n) ∷ [] = some-injective _ _ (sym e3 ∙ e) in
          let good : valid_level (str_to_digit level) ≡ some n =
            (log_level_iff level n).1 (small, same) in
          cc

      levelled :
          (o : Option ℕ)
          → valid_level (str_to_digit level) ≡ o
          → Decides env options fuel v (
              (elim o as (λ _. Cmd ℤ) [
                | none ↦ do
                  syslog env log_err "Unrecognized value for option 'log_level': %s"
                  pure exit_failure
                | some log_level ↦ do
                  tell env (Event.setlogmask (log_upto (priority_at log_level)))
                  syslog env log_debug
                      "Options: device ID: %s, device secret: %s, product ID: %s, log_level: %d"
                  run_mqtt env fuel id secret
              ])
                t)
      levelled none bad = after (tell-Keeps env at _ refl) λ _ u k. refuses (rejects bad) k
      levelled (some n) good =
          let (small, digit) = (log_level_iff level n).0 good in
          after (tell-Keeps env at _ refl) λ _ u k. after (tell-Keeps env k _ refl) λ _ w l.
            starts id secret w
              (record {
                device_id = e0;
                device_secret = e1;
                product_id = (product, e2);
                log_level = (n, small, e3 ∙ ap some digit);
              })
              l refl

  pub run_daemon-Decides :
      (f : ℕ) (t : Sys)
      → Holds f v.blocks
      → At v t
      → Decides env options fuel v (
          run_daemon env fuel true
            (block f "tuya.tuya_daemon.device_id")
            (block (f + 1) "tuya.tuya_daemon.device_secret")
            (block (f + 2) "tuya.tuya_daemon.product_id")
            (block (f + 3) "tuya.tuya_daemon.log_level")
            t)
  unfolding run_daemon
  run_daemon-Decides f u held k = after (option u f _ k held.at0) λ id x0 (k0, e0).
      after (option x0 (f + 1) _ k0 held.at1) λ secret x1 (k1, e1).
        after (option x1 (f + 2) _ k1 held.at2) λ product x2 (k2, e2).
          after (option x2 (f + 3) _ k2 held.at3) λ level x3 (k3, e3).
            elim (Option-cases (all_options id secret product level)) [
              | inl lacking ↦ rw lacking (
                  refuses
                    (λ id' secret' ok.
                      missing id secret product level id' secret' ok.product_id.0
                        ((48 + ok.log_level.0) ∷ []) lacking (e0 ∙ ok.device_id)
                        (e1 ∙ ok.device_secret) (e2 ∙ ok.product_id.1) (e3 ∙ ok.log_level.2))
                    k3)
              | inr (o, all) ↦
                  let (a0, a1, a2, a3) = all_options-eq id secret product level all in
                  rw all (
                    configured-Decides o.0 o.1 o.2 o.3 x3 k3 (sym e0 ∙ a0) (sym e1 ∙ a1)
                      (sym e2 ∙ a2) (sym e3 ∙ a3))
            ]
    where
      option :
          (x : Sys) (a : ℕ) (n : String)
          → At v x
          → member a v.blocks ≡ true
          → Returns (λ r u. At v u × (r ≡ options n)) (uci_get_option env (block a n) n x)
      option x a n k live =
          Logic.mono (uci_get_option-Value env a n n k live)
            λ r u (k', e). (k', e ∙ settings.value x.history n)
