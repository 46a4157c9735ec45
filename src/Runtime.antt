-- ===== src/Runtime.antt =====
-- The scheduler's own state (include/faio/detail/runtime/core).
pub mod Queue
pub mod StateMachine
pub mod Worker
pub mod Steal
mod Tests
