-- ===== src/Lib.antt =====
-- faio: an asynchronous runtime on io_uring. This library models parts of it and proves what they do.
-- Paths are from the repository's root; D stands for include/faio/detail.
--
-- A worker runs coroutines from its queues and drives an I/O engine, which owns a timer; sleeping
-- workers and those that look for work are counted by one state machine that all workers share.
-- Coroutines meet in a mutex and in channels. On this stands an HTTP server: a connection's first bytes
-- choose its session, the session assembles requests and hands them to a handler, usually a router's
-- dispatch, and writes the responses. What is modelled:
--
-- Config: constants (D/runtime/core/config.hpp) and powers (D/common/static_math.hpp).
--
-- Timer: D/runtime/core/timer.
--   Timer/Task: the class TimerTask (task.hpp), and what executing it does.
--   Timer/Offsets, Gather, Sweep: the specification, a list of tasks sorted by the milliseconds that
--   are left to them, and the loops over slots.
--   Timer/Wheel: TimerWheel<0> is Leaf, TimerWheel<LEVEL> is Node, over the interface WheelOps of its
--   child; Levels takes the instances together, and Refinement states what every level does.
--   Timer/Manager: the class Timer (timer.hpp): add_task, remove_task, poll, next_deadline_ms. The
--   variant of wheels is Root. The clock is an argument, now. Contents, Growth, Polling, Removal,
--   Deadline and Drift say what they do.
--
-- Sync: D/sync.
--   Sync/RingBuffer: RingBuffer (channel/ring_buffer.hpp); Laws and Resize.
--   Sync/Channel: Channel (channel/channel.hpp), over the ring buffer; send and recv are the two
--   await_suspend, each one step, since it holds the channel's mutex. Invariant, Order, Runs and
--   Starvation.
--   Sync/Mutex: mutex (mutex.hpp); a list of awaiters is a list of handles. try_lock is two steps, with
--   what it loaded as an argument. Fairness.
--   Sync/ConditionVariable: condition_variable (condition_variable.hpp).
--
-- Runtime: D/runtime/core.
--   Runtime/StateMachine: ThreadCounters and StateMachine (state_machine.hpp); Drift and Sleepers.
--   Runtime/Queue: LocalQueue and GlobalQueue (queue.hpp); Window, Laws and Global. A call is one
--   step: no thief moves between its reads and its writes.
--   Runtime/Worker: the tasks of a Worker and the choice of the next (worker.hpp).
--   Runtime/Steal: Worker::task_steal (worker.hpp); Choice.
--
-- Time: D/time. Time/Interval: Interval (interval.hpp).
--
-- Http: D/http. A string is a list of bytes (Text); a map is a list of entries, also where the code's is
-- unordered, and the order of the entries stands for the order of its iteration.
--   Http/Types: methods, requests and responses (types.hpp); Methods, and
--   Encoding and Query for the parameters.
--   Http/Router: HttpRouter (http_server.hpp); a handler is a function to a response or an exception.
--   Path, Matching, Dispatch, FastPath and Routes.
--   Http/Detect: HttpServer::detect_protocol and handle_connection (http_server.hpp), over any sequence
--   of reads; Detection.
--   Http/Ascii: the text helpers of v1/server_session_v1.hpp; Laws.
--   Http/Wire: write_all (D/net/common/stream_write.hpp) and the write loop of the session, over any
--   sequence of answers of the kernel; Delivery.
--   Http/SessionV1: Http1ServerSession (v1/server_session_v1.hpp): the callbacks of the parser, in
--   Assembly what they assemble; Block is the response's text, with Status, Lines, Peer and Delivery;
--   Pipeline is the loops, with Order. The parser, llhttp, is a parameter: a function from its state and
--   the bytes of a read to its next state, the calls of the callbacks, and whether it takes the bytes.
--   Http/SessionV2: the server's callbacks of v2/session_callbacks.hpp, on a list of the calls that nghttp2
--   makes, and the body source of v2/server_session_v2.hpp; Streams, Assembly and BodySource.
--   Http/ClientV1: Http1ClientSession (v1/client_session_v1.hpp), over llhttp as the server is; Response
--   and Exchange.
--
-- Base holds what all share: tests on numbers, lists, arithmetic on size_t.
--
-- Bounds and fuel. A loop over slots is given their number, 64 at most, or what it counts to. The two
-- functions of the timer that call each other until the wheel is high enough have max_level rounds:
-- each round goes one level up, and there is no higher level than that. Level 6 spans 64 ^ 7 ms, about
-- 139 years. Indices of the ring buffer and counts of workers wrap around at 2 ^ 64, those of the local
-- queue at 2 ^ 32; the vectors are taken to be shorter than 2 ^ 63. Milliseconds are natural numbers.
-- Splitting a path and writing have a round for each byte, since a round takes one at least; detection
-- has one more than the preface has bytes, and parsing a query one more than the query has.
--
-- Not modelled: the orders of the atomics (a call is one step, and where a test reads a counter without
-- the lock, the earlier reading is an argument); the loop of the workers, the I/O engine and io_uring,
-- the coroutine types, the network layer but for write_all, the HTTP/2 client, the loop of the
-- HTTP/2 server around nghttp2; the logging library of thirdparty.
pub mod Base
pub mod Config
pub mod Timer
pub mod Runtime
pub mod Sync
pub mod Time
pub mod Http
