-- ===== src/Host.antt =====
-- tuya_daemon: the daemon for a desktop system.
pub mod Args
pub mod Daemon
pub mod Buffer
pub mod Connection
pub mod Main
pub mod Walks
pub mod Hazards
