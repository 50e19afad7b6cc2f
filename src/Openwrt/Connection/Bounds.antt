-- ===== src/Openwrt/Connection/Bounds.antt =====
-- openwrt/tuya_daemon/src/connection.c: how long `connect_to_tuya` sleeps.
use tuya_daemon.Base.{ℕ, ◌+◌, ◌≤◌, ◌≡◌, arith, ap, ◌∙◌}
use tuya_daemon.World.{Sys, Env}
use tuya_daemon.World.Logic
use tuya_daemon.World.Logic.{Ends, View, At, lifecycle, Quits}
use tuya_daemon.World.Trace.{sleeps, attempts, powers, total, total-append, total-powers_le}
use tuya_daemon.Openwrt.Connection.{connect_to_tuya}
use tuya_daemon.Openwrt.Connection.Memory.{Services, IsServing}
use tuya_daemon.Openwrt.Connection.Lifecycle.{connect_to_tuya-Connected}
use tuya_daemon.Openwrt.Connection.Retries.{StaysUp}

-- Under the conditions of `connect_to_tuya-Connected`: whenever `connect_to_tuya` ends, it has
-- asked to sleep for at most 2046 seconds in all and has tried to connect at most eleven times.
pub connect_to_tuya-bounded :
    (env : Env) (services : Services env) (up : StaysUp env) (ctx fuel : ℕ) {v : View} (t : Sys)
    → Quits v.handlers
    → IsServing ctx v
    → At v t
    → Ends
        (λ _ u.
          (total (sleeps (lifecycle u.history)) ≤ 2046 + total (sleeps v.trace))
          × (attempts (lifecycle u.history) ≤ 11 + attempts v.trace))
        (λ _. Unit)
        (connect_to_tuya env fuel t)
connect_to_tuya-bounded env services up ctx fuel {v} t quits serving at =
    Logic.map-Ends (connect_to_tuya-Connected env services up ctx fuel quits t serving at)
      (λ r u (c, _).
        let slept : total (sleeps (lifecycle u.history))
            ≡ total (powers c.retries) + total (sleeps v.trace) =
          ap total c.slept ∙ total-append (powers c.retries) (sleeps v.trace) in
        let few : total (powers c.retries) ≤ 2046 = total-powers_le c.retries c.bounded in
        let tried : attempts (lifecycle u.history) ≡ c.retries + 1 + attempts v.trace =
          c.attempted in
        let most : c.retries ≤ 10 = c.bounded in (omega arith, omega arith))
      (λ _ _. tt)
