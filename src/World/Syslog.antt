-- ===== src/World/Syslog.antt =====
-- The priorities of syslog(3).
use tuya_daemon.Base.{ℕ, ◌+◌, ◌-◌, ◌^◌}

abbrev pub log_emerg : ℕ
log_emerg = 0

abbrev pub log_alert : ℕ
log_alert = 1

abbrev pub log_crit : ℕ
log_crit = 2

abbrev pub log_err : ℕ
log_err = 3

abbrev pub log_warning : ℕ
log_warning = 4

abbrev pub log_notice : ℕ
log_notice = 5

abbrev pub log_info : ℕ
log_info = 6

abbrev pub log_debug : ℕ
log_debug = 7

-- `LOG_UPTO(p)`: the mask of the priorities 0 to p.
abbrev pub log_upto : ℕ → ℕ
log_upto p = 2 ^ (p + 1) - 1
