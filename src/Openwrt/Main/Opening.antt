-- ===== src/Openwrt/Main/Opening.antt =====
-- openwrt/tuya_daemon/src/connection.c: what `init_connections` leaves, by its status.
use tuya_daemon.Base.{
  ℕ, ◌≤◌, ◌≡◌, refl, ◌⊎◌, inl, inr, true, false, some, List, ◌∷◌, ℤ, pos, is_zero, minus_one,
  minus_two, arith, Bool-cases, ◌==◌, ==_refl, ap,
}
use tuya_daemon.World.{Bytes, Config, Context, Event, Sys, Env, malloc}
use tuya_daemon.World.Logic
use tuya_daemon.World.Logic.{
  Ends, Returns, ends, runs, of_Returns, View, At, At-view, view, Quits, lifecycle, with_blocks,
  marked, tell-Keeps, call-Marks, free_block-Keeps, touch-Keeps, malloc-Keeps, Keeps, At-note,
}
use tuya_daemon.World.Trace.{attempts}
use tuya_daemon.Openwrt.Ubus.{ubus_connect}
use tuya_daemon.Openwrt.Connection.{mqtt_config, tuya_mqtt_init, init_connections}
use tuya_daemon.Openwrt.Connection.Memory.{IsServing}
use tuya_daemon.World.Steps.Fresh.{Returns-fresh}
use tuya_daemon.Openwrt.Walks.Callbacks.{Permitted, ordinary, driving}
use tuya_daemon.Openwrt.Walks.Daemon.{init-Walk}

-- The state after `init_connections`, by the status and the address that it returns.
pub data Begun (old : List Event) (bs : List ℕ) (handlers : View) : ℤ × ℕ → Sys → Type 0 where
  begun :
      (ctx : ℕ) (w : View) {u : Sys}
      → IsServing ctx w
      → w.blocks ≡ ctx ∷ bs
      → w.handlers ≡ handlers.handlers
      → At w u
      → Begun old bs handlers (pos 0, ctx) u
  failed :
      (status : ℤ) (w : View) {u : Sys}
      → is_zero status ≡ false
      → w.blocks ≡ bs
      → attempts w.trace ≡ attempts old
      → At w u
      → Begun old bs handlers (status, 0) u

-- The view with a configuration and an address in the context, after one more event.
abbrev configured : Event → Config → ℕ → View → View
configured e config user_data v = record (marked e v) {
  context = record { config = some config; user_data = user_data };
}

At-context :
    {v : View} {u : Sys} (c d : Context)
    → d ≡ c
    → At v u
    → At (record v { context = c }) (record u { context = d })
At-context c d e at = record {
  blocks = at.blocks;
  context = e;
  date_time_format = at.date_time_format;
  date_time_format_should_free = at.date_time_format_should_free;
  handlers = at.handlers;
  trace = at.trace;
}

module _ (env : Env) where
  malloc-Fresh :
      {v : View} {t : Sys}
      → At v t
      → Returns (λ a u. At (with_blocks (a ∷ v.blocks) v) u × (a ≡ t.fresh)) (malloc env t)
  unfolding malloc
  malloc-Fresh at = ends (At-note env _ refl (ground arith), refl)

  ubus_connect-Owns :
      {v : View} {t : Sys}
      → At v t
      → 1 ≤ t.fresh
      → Returns
          (λ a u. ((a ≡ 0) × At v u) ⊎ (((a == 0) ≡ false) × At (with_blocks (a ∷ v.blocks) v) u))
          (ubus_connect env t)
  unfolding ubus_connect
  ubus_connect-Owns {t = t} at positive = elim (Bool-cases (env.ubus_connect t.history)) [
    | inl e ↦ rw e (
        Logic.bind (malloc-Fresh at) λ a u (k, newest).
          Logic.bind (tell-Keeps env k _ refl) λ _ u1 k1. ends (inr (ground arith, k1)))
    | inr e ↦ rw e (Logic.bind (tell-Keeps env at _ refl) λ _ u k. ends (inl (refl, k)))
  ]

  -- The view after `tuya_mqtt_init` has succeeded, and after `user_data` is set.
  tuya_mqtt_init-Configured :
      (config : Config) {v : View} (t : Sys)
      → At v t
      → Returns
          (λ r u.
            ((is_zero r ≡ true) × At (configured (Event.mqtt_init r) config 0 v) u)
            ⊎ ((is_zero r ≡ false) × At (marked (Event.mqtt_init r) v) u))
          (tuya_mqtt_init env config t)
  unfolding tuya_mqtt_init
  tuya_mqtt_init-Configured config t at =
      Logic.bind (call-Marks env at env.tuya_mqtt_init _ (λ _. refl)) λ ret u (k, _).
        elim (Bool-cases (is_zero ret)) [
          | inl ok ↦ rw ok (ends (inl (ok, At-context _ _ refl k)))
          | inr bad ↦ rw bad (ends (inr (bad, k)))
        ]

  pub init_connections-Begun :
      (device_id device_secret : Bytes) {v : View} (t : Sys)
      → At v t
      → 1 ≤ t.fresh
      → Returns (Begun v.trace v.blocks v) (init_connections env device_id device_secret t)
  unfolding init_connections attempts
  init_connections-Begun device_id device_secret {v} t at positive =
      Logic.bind
        (Returns-fresh
          (init-Walk {Allowed = Permitted env} ordinary (λ _. driving _ tt)
            (mqtt_config device_id device_secret))
          (tuya_mqtt_init-Configured (mqtt_config device_id device_secret) t at))
        λ ret u (case, grown). elim case [
          | inr (bad, k) ↦ rw bad (
              Logic.bind (tell-Keeps env k _ refl)
                λ _ u1 k1. ends (failed minus_one _ refl refl refl k1))
          | inl (ok, k) ↦ rw ok (
              Logic.bind (ubus_connect-Owns k (omega arith)) λ ctx u1 opened. elim opened [
                | inl (null, k1) ↦ rw (null) (
                    Logic.bind (tell-Keeps env k1 _ refl)
                      λ _ u2 k2. ends (failed minus_two _ refl refl refl k2))
                | inr (live, k1) ↦ rw live (
                    ends (
                      begun ctx
                        (configured (Event.mqtt_init ret) (mqtt_config device_id device_secret) ctx
                          (with_blocks (ctx ∷ v.blocks) v))
                        (record {
                          live = record { ne_null = live; live = rw (==_refl ctx) refl };
                          config = ((device_id, device_secret), refl);
                          user_data = refl;
                        })
                        refl refl
                        (At-context _ _
                          (ap (λ (c : Context). record c { user_data = ctx }) k1.context) k1)))
              ])
        ]
