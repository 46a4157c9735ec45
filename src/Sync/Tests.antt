-- ===== src/Sync/Tests.antt =====
-- The ring buffer, the channel and the mutex at concrete inputs.
use mathlib.Core.List.{Perm}
use faio.Base.{
  ℕ, ◌≡◌, refl, true, false, List, [], ◌∷◌, ◌++◌, arith, length, ltb, if◌then◌else◌, inl,
}
use faio.Sync.RingBuffer
use faio.Sync.RingBuffer.{RingBuffer}
use faio.Sync.RingBuffer.Laws.{IsValid, contents, take_front, push_refines, pop_refines}
use faio.Sync.RingBuffer.Resize.{resize_overruns}
use faio.Sync.Channel
use faio.Sync.Channel.{SendAwaiter, Channel, done}
use faio.Sync.Channel.Invariant.{ChannelIsValid, backlog, Sends, send-Sends}
use faio.Sync.Channel.Starvation.{turns, full_buffer_starves}
use faio.Sync.Channel.Runs
use faio.Sync.Channel.Runs.{Call, sends, receives, Uncrowded, calls_conserve, calls-in_order}
use faio.Sync.Mutex
use faio.Sync.Mutex.{Mutex, locked, reverse_onto}
use faio.Sync.Mutex.Fairness
use faio.Sync.Mutex.Fairness.{
  MutexIsValid, Fair, Served, line, locks, unlocks, calls-Fair, unlock-Served, try_lock_takes_held,
}

-- Opens the code for the tests below.
sync_code : Unit {0}
unfolding RingBuffer.new RingBuffer.front RingBuffer.is_empty RingBuffer.is_fill
    RingBuffer.safety_push RingBuffer.advance RingBuffer.push RingBuffer.pop RingBuffer.size
    RingBuffer.capacity RingBuffer.resize Channel.make Channel.send Channel.recv Mutex.new
    Mutex.lock Mutex.try_lock Mutex.unlock
sync_code = tt

-- Room for three, with 5 and 6 in it.
abbrev two_numbers : RingBuffer ℕ
two_numbers = (RingBuffer.push (RingBuffer.push (RingBuffer.new 0 3) 5).0 6).0

two_numbers-IsValid : IsValid two_numbers
unfolding sync_code
two_numbers-IsValid = record {
  room = omega arith;
  small = omega arith;
  start_in = omega arith;
  end_in = omega arith;
}

push_refines_example :
    IsValid (RingBuffer.push two_numbers 7).0
    × ((RingBuffer.push two_numbers 7).1
        ≡ ltb (length (contents two_numbers)) (RingBuffer.capacity two_numbers))
    × (contents (RingBuffer.push two_numbers 7).0 ≡ (
        if ltb (length (contents two_numbers)) (RingBuffer.capacity two_numbers)
        then contents two_numbers ++ 7 ∷ []
        else contents two_numbers))
push_refines_example = push_refines two_numbers 7 two_numbers-IsValid

pop_refines_example :
    IsValid (RingBuffer.pop 0 two_numbers).0
    × (((RingBuffer.pop 0 two_numbers).1, contents (RingBuffer.pop 0 two_numbers).0)
        ≡ take_front (contents two_numbers))
pop_refines_example = pop_refines two_numbers 0 two_numbers-IsValid

resize_overruns_example :
    ((RingBuffer.resize 0 two_numbers 1).1 ≡ true)
    × ((RingBuffer.resize 0 two_numbers 1).0.end
        ≡ length (RingBuffer.resize 0 two_numbers 1).0.cells)
unfolding sync_code
resize_overruns_example = resize_overruns 0 two_numbers two_numbers-IsValid 1 (omega arith) refl

-- A channel with room for one.
abbrev small_channel : Channel ℕ
small_channel = Channel.make 1 1 (RingBuffer.new 0 1)

small_channel-IsValid : ChannelIsValid small_channel
unfolding sync_code
small_channel-IsValid = record {
  ring = record {
    room = omega arith;
    small = omega arith;
    start_in = omega arith;
    end_in = omega arith;
  };
  mode = inl (refl, inl refl);
}

-- With 11 in the buffer, coroutine 2 sends 12, 13 and 14 and coroutine 3 receives them; 11 stays.
abbrev filled : Channel ℕ
filled = (Channel.send small_channel 1 11).channel

full_buffer_starves_example :
    ((Runs.calls 0 (turns 0 2 3 (12 ∷ 13 ∷ 14 ∷ [])) filled).got ≡ 12 ∷ 13 ∷ 14 ∷ [])
    × ((Runs.calls 0 (turns 0 2 3 (12 ∷ 13 ∷ 14 ∷ [])) filled).channel ≡ filled)
unfolding sync_code
full_buffer_starves_example =
    full_buffer_starves 0 2 3 filled (12 ∷ 13 ∷ 14 ∷ [])
      (Sends.is_valid (send-Sends small_channel small_channel-IsValid 1 11)) refl refl refl refl

abbrev exchange : List (Call ℕ)
exchange = receives 9 ∷ sends 1 11 ∷ sends 2 12 ∷ receives 3 ∷ []

calls_conserve_example :
    ChannelIsValid (Runs.calls 0 exchange small_channel).channel
    × Perm
        ((Runs.calls 0 exchange small_channel).got
          ++ backlog (Runs.calls 0 exchange small_channel).channel)
        (backlog small_channel ++ (Runs.calls 0 exchange small_channel).put)
calls_conserve_example = calls_conserve 0 exchange small_channel small_channel-IsValid

calls-in_order_example :
    (Runs.calls 0 exchange small_channel).got
      ++ backlog (Runs.calls 0 exchange small_channel).channel
    ≡ backlog small_channel ++ (Runs.calls 0 exchange small_channel).put
unfolding sync_code
calls-in_order_example =
    calls-in_order 0 exchange small_channel small_channel-IsValid (refl, (refl, tt))

-- Coroutine 1 holds the mutex, 2 and 3 wait.
abbrev held : Mutex
held = (Mutex.lock (Mutex.lock (Mutex.lock Mutex.new 1).0 2).0 3).0

calls-Fair_example :
    Fair Mutex.new
      (Fairness.calls (locks 1 ∷ locks 2 ∷ locks 3 ∷ unlocks ∷ locks 4 ∷ unlocks ∷ []) Mutex.new)
unfolding sync_code
calls-Fair_example =
    calls-Fair (locks 1 ∷ locks 2 ∷ locks 3 ∷ unlocks ∷ locks 4 ∷ unlocks ∷ []) Mutex.new refl

unlock-Served_example : Served (line held) (Mutex.unlock held)
unfolding sync_code
unlock-Served_example = unlock-Served held (3 ∷ 2 ∷ []) refl

try_lock_takes_held_example :
    ((Mutex.try_lock held.state held).1 ≡ true)
    × (line held ≡ held.fifo_awaiters ++ reverse_onto [] (3 ∷ 2 ∷ []))
    × ((Fairness.calls (unlocks ∷ locks 4 ∷ []) (Mutex.try_lock held.state held).0).got
          ++ line (Fairness.calls (unlocks ∷ locks 4 ∷ []) (Mutex.try_lock held.state held).0).mutex
        ≡ held.fifo_awaiters
          ++ (Fairness.calls (unlocks ∷ locks 4 ∷ []) (Mutex.try_lock held.state held).0).came)
unfolding sync_code
try_lock_takes_held_example = try_lock_takes_held held (3 ∷ 2 ∷ []) (unlocks ∷ locks 4 ∷ []) refl

-- Coroutine 2 comes between the load and the compare-exchange: `try_lock` fails.
try_lock_fails : (Mutex.try_lock (locked []) (Mutex.lock (Mutex.lock Mutex.new 1).0 2).0).1 ≡ false
unfolding sync_code
try_lock_fails = refl
