-- ===== src/Timer.antt =====
-- include/faio/detail/runtime/core/timer: tasks, wheels of every level, and the class `Timer`.
pub mod Task
pub mod Offsets
pub mod Gather
pub mod Sweep
pub mod Wheel
pub mod Manager
pub mod Contents
pub mod Growth
pub mod Polling
pub mod Removal
pub mod Deadline
pub mod Drift
mod Tests
