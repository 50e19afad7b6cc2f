-- ===== src/Openwrt/Main/Closing.antt =====
-- openwrt/tuya_daemon/src/main.c from `init_connections` to the label `cleanup_end`: who owns the
-- ubus connection, and how the library is closed.
use tuya_daemon.World.Steps.Invariants.{Adds, nothing}
use tuya_daemon.Base.{
  ℕ, ◌≤◌, ◌≡◌, refl, ◌⊎◌, inl, inr, false, not, Option, some, List, [], ◌∷◌, ℤ, is_zero, ◌==◌,
  ==_refl, ◌∙◌, ap, if◌then◌else◌, sym, subst,
}
use tuya_daemon.World.{
  Bytes, Config, Context, Event, History, Sys, disconnected, Env, Cmd, pure, call, ◌>>=◌,
}
use tuya_daemon.World.Logic
use tuya_daemon.World.Logic.{
  call-Records, Ends, Returns, ends, runs, of_Returns, View, At, At-view, view, Quits, lifecycle,
  with_blocks, marked, tell-Keeps, call-Marks, free_block-Keeps, touch-Keeps, malloc-Keeps, Keeps,
  At-note,
}
use tuya_daemon.World.Trace.{attempts}
use tuya_daemon.Openwrt.Ubus.{ubus_free}
use tuya_daemon.Openwrt.Connection.{
  mqtt_config, on_disconnect, run_callbacks, run_callback, run_handler, tuya_mqtt_disconnect,
}
use tuya_daemon.Openwrt.Connection.Memory.{Services, IsServing}
use tuya_daemon.Openwrt.Connection.Lifecycle.{IsServing-trace}
use tuya_daemon.Openwrt.Connection.Retries.{StaysUp}
use tuya_daemon.Openwrt.Main.{serve, run_mqtt}
use tuya_daemon.Openwrt.Main.Serving.{serve-Keeps}
use tuya_daemon.Openwrt.Main.Opening.{Begun, begun, failed, init_connections-Begun}

-- What the code relies on at the end: a library that has not been asked to connect reports no lost
-- connection, and one that has reports it at most once.
pub record Farewell (env : Env) : Type 0 where
  pub quiet : (h : History) → attempts (lifecycle h) ≡ 0 → env.disconnect_callbacks h ≡ []
  pub once :
      (h : History)
      → (env.disconnect_callbacks h ≡ []) ⊎ (env.disconnect_callbacks h ≡ disconnected ∷ [])

module _ (env : Env) {v : View} {t : Sys} (at : At v t) where
  on_disconnect-Frees :
      (ctx : ℕ) (bs : List ℕ)
      → (ctx == 0) ≡ false
      → v.blocks ≡ ctx ∷ bs
      → Returns (Keeps (with_blocks bs v)) (on_disconnect env ctx t)
  unfolding on_disconnect ubus_free
  on_disconnect-Frees ctx bs nz own =
      Logic.bind
        (Logic.bind (touch-Keeps env at ctx nz (rw (own, ==_refl ctx) refl)) λ _ u k.
          Logic.bind (free_block-Keeps env k ctx bs own) λ _ u1 k1. tell-Keeps env k1 _ refl)
        λ _ u k. tell-Keeps env k _ refl

-- The library has reported no lost connection when it was disconnected: `at` is the history of the
-- run when `tuya_mqtt_disconnect` was called, `before` its lifecycle part, and no callback has come
-- between it and the last two calls to the library.
pub record Unreported (env : Env) (left closed : ℤ) (before : List Event) (now : History)
    : Type 0 where
  pub at : History
  pub silent : env.disconnect_callbacks at ≡ []
  pub past : lifecycle at ≡ before
  pub since : Adds (λ _. Unit) (Event.mqtt_deinit closed ∷ Event.mqtt_disconnect left ∷ at) now

-- After `tuya_mqtt_disconnect`: the library has reported the lost connection or not.
data Left (env : Env) (ctx : ℕ) (bs : List ℕ) (v : View) (r : ℤ) (u : Sys) : Type 0 where
  freed : At (marked (Event.mqtt_disconnect r) (with_blocks bs v)) u → Left env ctx bs v r u
  kept :
      (h : History)
      → env.disconnect_callbacks h ≡ []
      → lifecycle h ≡ v.trace
      → u.history ≡ Event.mqtt_disconnect r ∷ h
      → At (marked (Event.mqtt_disconnect r) v) u
      → Left env ctx bs v r u

module _ (env : Env) where
  tuya_mqtt_disconnect-Quiet :
      {v : View} {t : Sys}
      → At v t
      → env.disconnect_callbacks t.history ≡ []
      → Returns
          (λ r u.
            At (marked (Event.mqtt_disconnect r) v) u
            × (u.history ≡ Event.mqtt_disconnect r ∷ t.history))
          (tuya_mqtt_disconnect env t)
  unfolding tuya_mqtt_disconnect run_callbacks
  tuya_mqtt_disconnect-Quiet at silent =
      rw silent (call-Records env at env.tuya_mqtt_disconnect _ (λ _. refl))

  tuya_mqtt_disconnect-Left :
      (farewell : Farewell env) (ctx : ℕ) (bs : List ℕ) {v : View} (t : Sys)
      → IsServing ctx v
      → v.blocks ≡ ctx ∷ bs
      → At v t
      → Returns (Left env ctx bs v) (tuya_mqtt_disconnect env t)
  unfolding tuya_mqtt_disconnect run_callbacks
  tuya_mqtt_disconnect-Left farewell ctx bs {v} t serving own at = elim (farewell.once t.history) [
    | inl silent ↦
        Logic.mono (tuya_mqtt_disconnect-Quiet at silent)
          λ r u (k, e). kept t.history silent at.trace e k
    | inr lost ↦ rw lost (
        Logic.bind
          (Logic.bind
            (callback _ _ (ap (λ (x : Context). x.config) at.context ∙ serving.config.1)
              (ap (λ (x : Context). x.user_data) at.context ∙ serving.user_data))
            λ _ u k. ends k)
          λ _ u k.
            Logic.mono (call-Marks env k env.tuya_mqtt_disconnect _ (λ _. refl))
              λ r w (k', _). freed k')
  ]
    where
      callback :
          (o : Option Config) (user_data : ℕ)
          → o ≡ some (mqtt_config serving.config.0.0 serving.config.0.1)
          → user_data ≡ ctx
          → Returns (Keeps (with_blocks bs v)) (run_callback env o user_data disconnected t)
      callback o user_data e1 e2 =
          rw (e1, e2)
            (unfold run_callback run_handler in
              on_disconnect-Frees env at ctx bs serving.live.ne_null own)

-- The end of a run, from the blocks that others own: the library is disconnected and then
-- deinitialised as the last calls to it, and the ubus connection is freed, unless the library has
-- not reported the end of the connection.
pub record Shut (env : Env) (bs : List ℕ) (v : View) (u : Sys) : Type 0 where
  pub calls :
      (left : ℤ) × ((closed : ℤ) × ((before : List Event) × (lifecycle u.history
            ≡ Event.mqtt_deinit closed ∷ Event.mqtt_disconnect left ∷ before)))
  pub blocks :
      (u.blocks ≡ bs)
      ⊎ (Unreported env calls.0 calls.1.0 calls.1.1.0 u.history
          × ((ctx : ℕ) × (u.blocks ≡ ctx ∷ bs)))

-- What `run_mqtt` does after `init_connections`.
abbrev after_init : Env → ℕ → ℤ × ℕ → Cmd ℤ
after_init env fuel r = do
  ret_val ← (if not (is_zero r.0) then pure r.0 else serve env fuel r.1)
  _ ← tuya_mqtt_disconnect env
  _ ← call env env.tuya_mqtt_deinit Event.mqtt_deinit
  pure ret_val

module _ (env : Env) (services : Services env) (up : StaysUp env) (farewell : Farewell env)
    (fuel : ℕ) {v : View} (unused : attempts v.trace ≡ 0) (quits : Quits v.handlers) where
  after_init-Shut :
      (r : ℤ × ℕ) (u : Sys)
      → Begun v.trace v.blocks v r u
      → Ends (λ _ w. Shut env v.blocks v w) (λ _. Unit) (after_init env fuel r u)
  after_init-Shut _ u (failed status w bad own same k) = rw bad (
      Logic.bind
        (of_Returns (
          tuya_mqtt_disconnect-Quiet env k (farewell.quiet u.history (rw k.trace (same ∙ unused)))))
        λ left u1 (k1, _).
          Logic.bind (of_Returns (call-Marks env k1 env.tuya_mqtt_deinit _ (λ _. refl)))
            λ closed u2 (k2, _).
              ends (record {
                calls = (left, (closed, (_, k2.trace)));
                blocks = inl (k2.blocks ∙ own);
              }))
  after_init-Shut _ u (begun ctx w serving own hs k) =
      Logic.bind
        (Logic.map-Ends
          (serve-Keeps env services up ctx fuel u (subst Quits (sym hs) quits) serving k)
          (λ _ w k. k) (λ _ _. tt))
        λ ret u0 k0. of_Returns (
          Logic.bind
            (tuya_mqtt_disconnect-Left env farewell ctx v.blocks u0
              (IsServing-trace env services up ctx _ serving) own k0)
            λ left u1 l. elim l [
              | freed k1 ↦
                  Logic.bind (call-Marks env k1 env.tuya_mqtt_deinit _ (λ _. refl))
                    λ closed u2 (k2, _).
                      ends
                        (record { calls = (left, (closed, (_, k2.trace))); blocks = inl k2.blocks })
              | kept h silent past e k1 ↦
                  Logic.bind (call-Records env k1 env.tuya_mqtt_deinit _ (λ _. refl))
                    λ closed u2 (k2, e2). ends (record {
                      calls = (left, (closed, (_, k2.trace)));
                      blocks = inr (
                        record {
                          at = h;
                          silent = silent;
                          past = past;
                          since =
                              subst (Adds _ _)
                                (sym (e2 ∙ ap (λ (x : History). Event.mqtt_deinit closed ∷ x) e))
                                nothing;
                        },
                        (ctx, k2.blocks ∙ own),
                      );
                    })
            ])

  pub run_mqtt-Shut :
      (device_id device_secret : Bytes) (t : Sys)
      → 1 ≤ t.fresh
      → At v t
      → Ends
          (λ _ u. Shut env v.blocks v u)
          (λ _. Unit)
          (run_mqtt env fuel device_id device_secret t)
  unfolding run_mqtt
  run_mqtt-Shut device_id device_secret t positive at =
      Logic.bind (of_Returns (init_connections-Begun env device_id device_secret t at positive))
        λ r u state. after_init-Shut r u state
