-- ===== src/World.antt =====
-- What both daemons are written against: the process state, the calls into libraries and the
-- operating system, and the monad in which the translated functions run.
mod State
mod Environment
mod Program
mod Calls
mod Syslog
pub mod Logic
pub mod Trace
pub mod Steps
pub mod Faults
pub mod Protocol
pub use State.{
  Bytes, Signal, sigint, sigterm, SignalHandler, CharPtr, unset, null, literal, block, Handler,
  on_connected_handler, on_disconnect_handler, on_messages_handler, Config, Context, BlobType,
  int32, int64, string, table, array, UciStatus, uci_ok, uci_err_notfound, uci_err_other, Policy,
  Field, text, number, Event, History, Sys,
}
pub use Environment.*
pub use Program.*
unfoldable pub use Calls.*
pub use Syslog.*
