-- ===== src/Openwrt/Signals.antt =====
-- openwrt/tuya_daemon/src/signals.c
use tuya_daemon.World.{Env, SignalHandler, sigint, sigterm, Cmd, ◌>>◌, sigaction}

abbrev pub signal_handler : SignalHandler
signal_handler signum keep_running = 0

abbrev pub set_up_signal_handler : Env → Cmd (Unit {0})
set_up_signal_handler env = do
  sigaction env sigint signal_handler
  sigaction env sigterm signal_handler
