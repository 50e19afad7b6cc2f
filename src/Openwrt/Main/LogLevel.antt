-- ===== src/Openwrt/Main/LogLevel.antt =====
-- openwrt/tuya_daemon/src/main.c: the values of the option `log_level` that it accepts.
use tuya_daemon.Base.{ℕ, ◌+◌, ◌≤◌, ◌≡◌, ◌↔◌, Option, none, some, [], ◌∷◌, arith}
use tuya_daemon.World.{Bytes}
use tuya_daemon.Openwrt.Args.{str_to_digit}
use tuya_daemon.Openwrt.Args.Options.{str_to_digit_iff}
use tuya_daemon.Openwrt.Main.{valid_level}

valid_level_iff : (o : Option ℕ) (n : ℕ) → (valid_level o ≡ some n) ↔ ((n ≤ 7) × (o ≡ some n))
valid_level_iff none n = ((λ e. absurd (cc)), λ h. h.1)
valid_level_iff (some d) n = ((λ e. ground arith), λ h. ground arith)

-- For every text and number: the guard of `main` accepts the text as the log level with this number
-- if and only if the number is at most 7 and the text is the one byte of its digit.
pub log_level_iff :
    (s : Bytes) (n : ℕ) → (valid_level (str_to_digit s) ≡ some n) ↔ ((n ≤ 7) × (s ≡ (48 + n) ∷ []))
log_level_iff s n = (
  (λ e.
      let (small, d) = (valid_level_iff (str_to_digit s) n).0 e in
      (small, ((str_to_digit_iff s n).0 d).1)),
  λ (small, e).
      (valid_level_iff (str_to_digit s) n).1 (small, (str_to_digit_iff s n).1 (omega arith, e)),
)
