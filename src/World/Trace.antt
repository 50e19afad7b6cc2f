-- ===== src/World/Trace.antt =====
-- What the lifecycle events of a run say: the sleeps, the attempts to connect, and the streak of
-- failed reports. A trace has its newest event first.
use tuya_daemon.Base.{
  ℕ, zero, suc, ◌+◌, ◌*◌, ◌%◌, ◌^◌, ◌≤◌, ◌≡◌, refl, List, [], ◌∷◌, ◌++◌, arith, Bool, false, not,
  is_zero, sym, ℤ, ◌-◌, subst,
}
use tuya_daemon.World.State.{Event}
use tuya_daemon.World.Logic.{View}

abbrev pub with_trace : List Event → View → View
with_trace tr v = record v { trace = tr }

-- How long each sleep was to last.
unfoldable pub sleeps : List Event → List ℕ
sleeps [] = []
sleeps (Event.sleep n ∷ tr) = n ∷ sleeps tr
sleeps (_ ∷ tr) = sleeps tr

-- How often `tuya_mqtt_connect` was called.
unfoldable pub attempts : List Event → ℕ
attempts [] = 0
attempts (Event.mqtt_connect r ∷ tr) = suc (attempts tr)
attempts (_ ∷ tr) = attempts tr

-- What the attempts to connect have answered, newest first.
unfoldable pub results : List Event → List ℤ
results [] = []
results (Event.mqtt_connect r ∷ tr) = r ∷ results tr
results (_ ∷ tr) = results tr

-- `k` more attempts after one that answered `first`, when the answers were `old`: each comes after
-- one that failed, and the last answers `last`.
pub data Retries (first : ℤ) (old : List ℤ) : ℕ → ℤ → List ℤ → Type 0 where
  no_more : Retries first old 0 first old
  one_more :
      {k : ℕ} {last next : ℤ} {rs : List ℤ}
      → is_zero last ≡ false
      → Retries first old k last rs
      → Retries first old (suc k) next (next ∷ rs)

-- The same, with the first of them in front.
pub Retries-front :
    {first second : ℤ} {old : List ℤ} {k : ℕ} {last : ℤ} {rs : List ℤ}
    → is_zero first ≡ false
    → Retries second (second ∷ old) k last rs
    → Retries first old (suc k) last rs
Retries-front bad no_more = one_more bad no_more
Retries-front bad (one_more failed more) = one_more failed (Retries-front bad more)

-- How often `tuya_mqtt_loop` was called.
unfoldable pub loops : List Event → ℕ
loops [] = 0
loops (Event.mqtt_loop r ∷ tr) = suc (loops tr)
loops (_ ∷ tr) = loops tr

-- The sleeps 2 ^ k, ..., 4, 2.
unfoldable pub powers : ℕ → List ℕ
powers zero = []
powers (suc k) = 2 ^ suc k ∷ powers k

unfoldable pub total : List ℕ → ℕ
total [] = 0
total (n ∷ ns) = n + total ns

pub total-append : (ms ns : List ℕ) → total (ms ++ ns) ≡ total ms + total ns
unfolding total
total-append [] ns = omega arith
total-append (m ∷ ms) ns = omega (arith, total-append ms ns)

-- By the rounds that are missing to ten.
total-powers_up : (gap k : ℕ) → k + gap ≡ 10 → total (powers k) ≤ 2046
unfolding total powers
total-powers_up zero k e =
    let ten : k ≡ 10 = omega arith in subst (λ n. total (powers n) ≤ 2046) (sym ten) (omega arith)
total-powers_up (suc gap) k e =
    let more : 2 ^ suc k + total (powers k) ≤ 2046 = total-powers_up gap (suc k) (omega arith) in
    omega arith

pub total-powers_le : (k : ℕ) → k ≤ 10 → total (powers k) ≤ 2046
total-powers_le k h = total-powers_up (10 - k) k (omega arith)

-- The sleeps of `k` rounds from `s` on, doubled in 32 bits.
unfoldable pub doubling : ℕ → ℕ → List ℕ
doubling zero s = []
doubling (suc k) s = doubling k (s * 2 % 2 ^ 32) ++ (s ∷ [])

-- In ten rounds from 2 on nothing wraps.
pub doubling-powers : (k : ℕ) → k ≤ 10 → doubling k 2 ≡ powers k
unfolding doubling powers
doubling-powers zero h = refl
doubling-powers (suc zero) h = refl
doubling-powers (suc (suc zero)) h = refl
doubling-powers (suc (suc (suc zero))) h = refl
doubling-powers (suc (suc (suc (suc zero)))) h = refl
doubling-powers (suc (suc (suc (suc (suc zero))))) h = refl
doubling-powers (suc (suc (suc (suc (suc (suc zero)))))) h = refl
doubling-powers (suc (suc (suc (suc (suc (suc (suc zero))))))) h = refl
doubling-powers (suc (suc (suc (suc (suc (suc (suc (suc zero)))))))) h = refl
doubling-powers (suc (suc (suc (suc (suc (suc (suc (suc (suc zero))))))))) h = refl
doubling-powers (suc (suc (suc (suc (suc (suc (suc (suc (suc (suc zero)))))))))) h = refl
doubling-powers (suc (suc (suc (suc (suc (suc (suc (suc (suc (suc (suc k))))))))))) h =
    absurd (omega arith)

-- The rounds of a main loop that have failed since the last that did not: each leaves the result
-- of `tuya_mqtt_loop`, a sleep and a retry notice.
unfoldable pub streak : List Event → ℕ
streak (Event.syslog _ _ ∷ Event.sleep _ ∷ Event.mqtt_loop _ ∷ tr) = suc (streak tr)
streak _ = 0

-- The newest event is a `tuya_mqtt_connected` that said yes.
abbrev pub is_up : List Event → Bool
is_up (Event.mqtt_connected b ∷ tr) = b
is_up _ = false

-- The newest event is a `tuya_mqtt_loop` that failed.
abbrev pub loop_failed : List Event → Bool
loop_failed (Event.mqtt_loop r ∷ tr) = not (is_zero r)
loop_failed _ = false
