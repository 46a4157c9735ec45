-- ===== src/Time.antt =====
-- include/faio/detail/time: timers of coroutines.
pub mod Interval
