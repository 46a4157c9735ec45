-- ===== src/Sync.antt =====
-- include/faio/detail/sync: ring buffer, channel, mutex and condition variable.
pub mod RingBuffer
pub mod Channel
pub mod Mutex
pub mod ConditionVariable
mod Tests
