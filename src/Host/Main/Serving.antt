-- ===== src/Host/Main/Serving.antt =====
-- tuya_daemon/main.c: what holds from `init_tuya` to the clean-up, and that the callbacks keep it.
use tuya_daemon.Base.{
  ℕ, ◌≡◌, refl, ap, ◌∙◌, ==_refl, Bool, true, false, Option, some, List, [], ◌∷◌, String, ◌⊎◌, inl,
  inr, ◌≢◌,
}
use tuya_daemon.World.{
  Bytes, CharPtr, Config, Context, Event, History, Sys, Callback, connected, disconnected, message,
  Message, Env, call, tell,
}
use tuya_daemon.World.Logic
use tuya_daemon.World.Logic.{
  Returns, ends, View, At, marked, is_lifecycle, is_mark, unsent, tell-Keeps, tell-Records,
  tell-Notice, call-Marks, Quits, tell-Stays,
}
use tuya_daemon.Host.Connection.{send_current_time, on_connected, on_disconnect, on_messages}
use tuya_daemon.Host.Connection.Format.{OwnedFormat, static, dynamic, Owns, ValidJson}
use tuya_daemon.Host.Connection.Report.{Clock, IsText, send_current_time-Sent}
use tuya_daemon.Host.Connection.Messages.{on_messages-Settled}
use tuya_daemon.Host.Main.{mqtt_config, run_handler, run_callback, run_callbacks, tuya_mqtt_loop}

-- The format is owned, the configuration is the one of `init_tuya`, the trace is `tr`, and the
-- handlers that are installed clear `keep_running`.
pub record Serving (bs : List ℕ) (tr : List Event) (u : Sys) : Type 0 where
  pub v : View
  pub at : At v u
  pub own : Owns bs v
  pub config : (c : Option Bytes × Option Bytes) × (v.context.config ≡ some (mqtt_config c.0 c.1))
  pub traced : v.trace ≡ tr
  pub quits : Quits v.handlers

Owned-IsText :
    {bs now : List ℕ} {flag : Bool} {p : CharPtr}
    → OwnedFormat bs flag p now
    → (text : String) × IsText now p text
Owned-IsText (static x) = (x, IsText.static x)
Owned-IsText (dynamic a x) = (x, IsText.owned a x (rw (==_refl a) refl))

module _ (env : Env) {bs : List ℕ} {tr : List Event} {t : Sys} (s : Serving bs tr t) where
  kept : {u : Sys} → At s.v u → Serving bs tr u
  kept k = record {
    v = s.v;
    at = k;
    own = s.own;
    config = s.config;
    traced = s.traced;
    quits = s.quits;
  }

  grown : {u : Sys} (e : Event) → At (marked e s.v) u → Serving bs (e ∷ tr) u
  grown e k = record {
    v = marked e s.v;
    at = k;
    own = s.own;
    config = s.config;
    traced = ap (λ (x : List Event). e ∷ x) s.traced;
    quits = s.quits;
  }

  pub tell-Serving :
      (e : Event) → is_lifecycle e ≡ false → Returns (λ _ u. Serving bs tr u) (tell env e t)
  tell-Serving e silent = Logic.mono (tell-Keeps env s.at e silent) λ _ u k. kept k

  pub tell-Reason :
      {A : Type 0} (e : Event)
      → is_lifecycle e ≡ false
      → A ⊎ (t.keep_running ≢ 1)
      → Returns (λ _ u. Serving bs tr u × (A ⊎ (u.keep_running ≢ 1))) (tell env e t)
  tell-Reason e silent (inl a) = Logic.mono (tell-Keeps env s.at e silent) λ _ u k. (kept k, inl a)
  tell-Reason e silent (inr stop) =
      Logic.mono (tell-Stays env s.at e silent s.quits stop) λ _ u (k, still). (kept k, inr still)

  pub mark-Serving :
      (e : Event)
      → is_mark e ≡ true
      → Returns (λ _ u. Serving bs (e ∷ tr) u × (u.history ≡ e ∷ t.history)) (tell env e t)
  mark-Serving e seen =
      Logic.mono (tell-Records env s.at e seen) λ _ u (k, recorded). (grown e k, recorded)

  pub notice-Serving :
      (p : ℕ) (format : String)
      → is_lifecycle (Event.syslog p format) ≡ true
      → unsent t.history ≡ true
      → Returns
          (λ _ u. Serving bs (Event.syslog p format ∷ tr) u)
          (tell env (Event.syslog p format) t)
  notice-Serving p format seen failed =
      Logic.mono (tell-Notice env s.at p format seen failed) λ _ u k. grown _ k

  pub call-Serving :
      {A : Type 0} (answer : History → A) (event : A → Event)
      → ((a : A) → is_mark (event a) ≡ true)
      → Returns (λ a u. Serving bs (event a ∷ tr) u) (call env answer event t)
  call-Serving answer event seen =
      Logic.mono (call-Marks env s.at answer event seen) λ a u (k, _). grown _ k

  pub send_current_time-Serving :
      Clock env → Returns (λ _ u. Serving bs tr u) (send_current_time env t)
  send_current_time-Serving clock =
      let (text, legible) = Owned-IsText s.own in
      Logic.mono (send_current_time-Sent env clock text t s.at (rw s.at.date_time_format legible))
        λ _ u (k, _). kept k

  on_messages-Serving :
      ValidJson env → (msg : Message) → Returns (λ _ u. Serving bs tr u) (on_messages env msg t)
  on_messages-Serving valid msg = Logic.mono (on_messages-Settled env valid s.own msg s.at) λ _ u k.
      record {
        v = _;
        at = k.at;
        own = k.owned;
        config = s.config;
        traced = s.traced;
        quits = s.quits;
      }

module _ (env : Env) (clock : Clock env) (valid : ValidJson env) {bs : List ℕ}
    {tr : List Event} where
  run_callback-Serving :
      (c : Callback) {t : Sys}
      → Serving bs tr t
      → Returns (λ _ u. Serving bs tr u) (run_callback env t.context.config c t)
  run_callback-Serving c {t} s =
      configured c _ (ap (λ (x : Context). x.config) s.at.context ∙ s.config.1)
    where
      configured :
          (c : Callback) (o : Option Config)
          → o ≡ some (mqtt_config s.config.0.0 s.config.0.1)
          → Returns (λ _ u. Serving bs tr u) (run_callback env o c t)
      configured connected o e = rw e (
          unfold run_callback run_handler on_connected in
          Logic.bind (tell-Serving env s _ refl)
            λ _ u k. Logic.bind (send_current_time-Serving env k clock) λ _ u1 k1. ends k1)
      configured disconnected o e =
          rw e (unfold run_callback run_handler on_disconnect in tell-Serving env s _ refl)
      configured (message m) o e =
          rw e (unfold run_callback run_handler in on_messages-Serving env s valid m)

  pub run_callbacks-Serving :
      (cs : List Callback) (t : Sys)
      → Serving bs tr t
      → Returns (λ _ u. Serving bs tr u) (run_callbacks env cs t)
  unfolding run_callbacks
  run_callbacks-Serving [] t s = ends s
  run_callbacks-Serving (c ∷ cs) t s =
      Logic.bind (run_callback-Serving c s) λ _ u k. run_callbacks-Serving cs u k

  pub tuya_mqtt_loop-Serving :
      (t : Sys)
      → Serving bs tr t
      → Returns (λ r u. Serving bs (Event.mqtt_loop r ∷ tr) u) (tuya_mqtt_loop env t)
  unfolding tuya_mqtt_loop
  tuya_mqtt_loop-Serving t s =
      Logic.bind (run_callbacks-Serving (env.loop_callbacks t.history) t s)
        λ _ u k. call-Serving env k env.tuya_mqtt_loop _ (λ _. refl)
