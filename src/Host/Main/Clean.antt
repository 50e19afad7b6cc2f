-- ===== src/Host/Main/Clean.antt =====
-- tuya_daemon/main.c from `init_tuya` to the end: what is freed and closed.
use tuya_daemon.Base.{
  ℕ, ◌≡◌, refl, inl, inr, Bool, true, false, Option, some, List, ◌∷◌, String, ℤ, is_zero,
  Bool-cases, ◌∙◌, ◌==◌, ◌⊎◌, arith,
}
use tuya_daemon.World.{Bytes, literal, Event, Sys, Env, when, syslog, log_info}
use tuya_daemon.World.Logic
use tuya_daemon.World.Logic.{
  Ends, Returns, ends, runs, of_Returns, View, At, At-view, view, Quits, lifecycle, with_blocks,
  marked, tell-Keeps, call-Marks,
}
use tuya_daemon.Host.Args.{Args}
use tuya_daemon.Host.Connection.Format.{static, Owns, ValidJson}
use tuya_daemon.Host.Connection.Report.{Clock}
use tuya_daemon.Host.Connection.Messages.{free_date_time_format-Frees}
use tuya_daemon.Host.Main.{
  exit_failure, mqtt_config, init_tuya, tuya_mqtt_disconnect, cleanup, serve,
}
use tuya_daemon.Host.Main.Serving.{Serving, tell-Serving, call-Serving, run_callbacks-Serving}
use tuya_daemon.Host.Main.Connect.{connect_to_tuya-Settles}
use tuya_daemon.Host.Main.Loop.{GoesOn, main_loop_from-Ended}

-- The end of a run: the connection is closed, and only the blocks of others are left.
pub data Closed (bs : List ℕ) (old : List Event) : ℤ → Sys → Type 0 where
  not_ready :
      (init : ℤ) {u : Sys}
      → is_zero init ≡ false
      → u.blocks ≡ bs
      → lifecycle u.history ≡ Event.mqtt_init init ∷ old
      → Closed bs old exit_failure u
  cleaned :
      (left closed : ℤ) (before : List Event) {r : ℤ} {u : Sys}
      → u.blocks ≡ bs
      → lifecycle u.history ≡ Event.mqtt_deinit closed ∷ Event.mqtt_disconnect left ∷ before
      → Closed bs old r u

module _ (env : Env) (clock : Clock env) (valid : ValidJson env) {bs : List ℕ} where
  cleanup-Closed :
      (ret_val : ℤ) (old : List Event) {tr : List Event} (t : Sys)
      → Serving bs tr t
      → Returns (Closed bs old) (cleanup env ret_val t)
  unfolding cleanup tuya_mqtt_disconnect
  cleanup-Closed ret_val old {tr} t s = Logic.bind (goodbye (t.keep_running == 0)) λ _ u k.
      Logic.bind (tell-Serving env k _ refl) λ _ u1 k1.
        Logic.bind
          (Logic.bind
            (run_callbacks-Serving env clock valid (env.disconnect_callbacks u1.history) u1 k1)
            λ _ w k'. call-Serving env k' env.tuya_mqtt_disconnect _ (λ _. refl))
          λ left u2 k2.
            Logic.bind (call-Serving env k2 env.tuya_mqtt_deinit _ (λ _. refl)) λ closed u3 k3.
              Logic.bind (free_date_time_format-Frees env k3.own k3.at) λ _ u4 k4.
                Logic.bind (tell-Keeps env k4 _ refl)
                  λ _ u5 k5. ends (cleaned left closed _ k5.blocks (k5.trace ∙ k3.traced))
    where
      goodbye :
          (b : Bool)
          → Returns (λ _ u. Serving bs tr u) (when b (syslog env log_info "Got signal to exit") t)
      goodbye true = tell-Serving env s _ refl
      goodbye false = ends s

  -- What `init_tuya` leaves.
  init_tuya-Ready :
      (device_id device_secret : Option Bytes) {v : View} (t : Sys)
      → Owns bs v
      → Quits v.handlers
      → At v t
      → Returns
          (λ r u.
            ((is_zero r ≡ true) × ((init : ℤ) × Serving bs (Event.mqtt_init init ∷ v.trace) u))
            ⊎ ((is_zero r ≡ false)
                × ((init : ℤ) × (is_zero init ≡ false) × At (marked (Event.mqtt_init init) v) u)))
          (init_tuya env device_id device_secret t)
  unfolding init_tuya
  init_tuya-Ready device_id device_secret {v} t own quits at =
      Logic.bind (call-Marks env at env.tuya_mqtt_init _ (λ _. refl)) λ init u (k, _).
        elim (Bool-cases (is_zero init)) [
          | inr bad ↦
              rw bad
                (Logic.bind (tell-Keeps env k _ refl) λ _ u1 k1. ends (inr (refl, (init, bad, k1))))
          | inl ok ↦ rw ok (
              ends (
                inl (
                  refl,
                  (
                    init,
                    record {
                      v = record (marked (Event.mqtt_init init) v) {
                        context = record {
                          config = some (mqtt_config device_id device_secret);
                          user_data = 0;
                        };
                      };
                      at = record {
                        blocks = k.blocks;
                        context = refl;
                        date_time_format = k.date_time_format;
                        date_time_format_should_free = k.date_time_format_should_free;
                        handlers = k.handlers;
                        trace = k.trace;
                      };
                      own = own;
                      config = ((device_id, device_secret), refl);
                      traced = refl;
                      quits = quits;
                    },
                  ),
                )))
        ]

  -- Conditions: `strftime` and the JSON texts are as the code expects, the format of the time is a
  -- constant, its flag is not set, and every installed signal handler clears `keep_running`. Then
  -- the daemon, from `init_tuya` on, runs without undefined behaviour, whatever callbacks the
  -- library runs. If it ends, then the live blocks are those before it, and either `tuya_mqtt_init`
  -- has failed and it returns EXIT_FAILURE, or it has disconnected and then deinitialised the MQTT
  -- library as the last calls to it. If it does not end with the given fuel, it is in its main
  -- loop, with fewer than ten rounds in a row whose report has failed.
  pub serve-Closed :
      (fuel : ℕ) (arguments : Args) {v : View} (t : Sys) (text : String)
      → v.blocks ≡ bs
      → v.date_time_format ≡ literal text
      → v.date_time_format_should_free ≡ false
      → Quits v.handlers
      → At v t
      → Ends (Closed bs v.trace) (GoesOn bs) (serve env fuel arguments t)
  unfolding serve
  serve-Closed fuel arguments {v} t text blocks format flag quits at =
      Logic.bind
        (of_Returns (
          init_tuya-Ready arguments.device_id arguments.device_secret t
            (rw (blocks, format, flag) (static text)) quits at))
        λ ready u start. elim start [
          | inr (bad, (init, failed, k)) ↦
              rw bad (ends (not_ready init failed (k.blocks ∙ blocks) k.trace))
          | inl (ok, (init, s)) ↦ rw ok (
              Logic.bind (of_Returns (connect_to_tuya-Settles env clock valid u s)) λ up u1 c.
                elim (Bool-cases (is_zero up)) [
                  | inr down ↦ rw down (of_Returns (cleanup-Closed up v.trace u1 c.serving))
                  | inl fine ↦ rw fine (
                      Logic.bind
                        (main_loop_from-Ended env clock valid fuel 0 u1 c.serving c.unbroken
                          (omega arith))
                        λ r u2 e. of_Returns (cleanup-Closed r v.trace u2 e.serving))
                ])
        ]
