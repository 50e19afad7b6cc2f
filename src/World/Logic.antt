-- ===== src/World/Logic.antt =====
-- Reasoning about outcomes: a postcondition with a rule for sequencing, and what the calls into
-- the environment leave alone.
mod Outcomes
mod Views
mod Untouched
pub use Outcomes.*
unfoldable pub use Views.*
pub use Untouched.*
