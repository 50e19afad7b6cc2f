-- ===== src/Openwrt.antt =====
-- openwrt/tuya_daemon/src: the daemon of the OpenWrt package.
pub mod Signals
pub mod Args
pub mod Ubus
pub mod SendInfo
pub mod Connection
pub mod Main
pub mod Hazards
pub mod Walks
