-- ===== src/Sync/Channel.antt =====
-- include/faio/detail/sync/channel/channel.hpp: a bounded channel. A coroutine is the number of its
-- handle. `await_suspend` of either awaiter holds the channel's mutex and is one step; the
-- coroutines that it puts on the run queue, with what it stores in their awaiters, are a list.
pub mod Invariant
pub mod Order
pub mod Runs
pub mod Starvation
use faio.Base.{
  ℕ, ◌+◌, ◌%◌, ◌^◌, Bool, true, false, List, [], ◌∷◌, ◌++◌, Option, none, some, map, if◌then◌else◌,
  ◌==◌, next, sub_size,
}
use faio.Sync.RingBuffer.{RingBuffer, front, is_empty, is_fill, safety_push, advance}

pub record SendAwaiter (A : Type 0) : Type 0 where
  pub handle : ℕ
  pub value : A

pub record Channel (A : Type 0) : Type 0 where
  pub num_senders : ℕ
  pub num_receivers : ℕ
  pub buffer : RingBuffer A
  pub waiting_senders : List (SendAwaiter A)
  pub waiting_receivers : List ℕ
  pub is_closed : Bool

-- A coroutine put on the run queue: a receiver whose result was set to a value, a sender whose
-- result was set to success, or either with the result it was made with, which is `ClosedChannel`.
pub data Resumed (A : Type 0) : Type 0 where
  received : ℕ → A → Resumed A
  sent : ℕ → Resumed A
  closed : ℕ → Resumed A

-- What `await_suspend` does with its own coroutine: it suspends it, or goes on with a result.
pub data Outcome (A : Type 0) : Type 0 where
  suspended : Outcome A
  done : A → Outcome A
  closed_channel : Outcome A

pub record Step (A R : Type 0) : Type 0 where
  pub channel : Channel A
  pub outcome : Outcome R
  pub resumed : List (Resumed A)

pub data Sent : Type 0 where
  success : Sent

module _ {A : Type 0} where
  unfoldable pub make : ℕ → ℕ → RingBuffer A → Channel A
  make num_senders num_receivers buffer = record {
    num_senders = num_senders;
    num_receivers = num_receivers;
    buffer = buffer;
    waiting_senders = [];
    waiting_receivers = [];
    is_closed = false;
  }

  abbrev pub send_buffered : Channel A → ℕ → A → Step A Sent
  send_buffered c handle value =
      if is_fill c.buffer
      then (if c.is_closed
          then record { channel = c; outcome = closed_channel; resumed = [] }
          else record {
            channel = record c {
              waiting_senders = c.waiting_senders ++ record { handle = handle; value = value } ∷ [];
            };
            outcome = suspended;
            resumed = [];
          })
      else record {
        channel = record c { buffer = safety_push c.buffer value };
        outcome = done success;
        resumed = [];
      }

  abbrev pub send_to : List ℕ → Channel A → ℕ → A → Step A Sent
  send_to [] c handle value = send_buffered c handle value
  send_to (receiver ∷ rest) c handle value = record {
    channel = record c { waiting_receivers = rest };
    outcome = done success;
    resumed = received receiver value ∷ [];
  }

  -- `SendAwaiter::await_suspend`.
  unfoldable pub send : Channel A → ℕ → A → Step A Sent
  send c handle value = send_to c.waiting_receivers c handle value

  abbrev pub recv_buffered : A → Channel A → ℕ → Step A A
  recv_buffered blank c handle =
      if is_empty c.buffer
      then (if c.is_closed
          then record { channel = c; outcome = closed_channel; resumed = [] }
          else record {
            channel = record c { waiting_receivers = c.waiting_receivers ++ handle ∷ [] };
            outcome = suspended;
            resumed = [];
          })
      else record {
        channel = record c { buffer = advance c.buffer };
        outcome = done (front blank c.buffer);
        resumed = [];
      }

  abbrev pub recv_from : A → List (SendAwaiter A) → Channel A → ℕ → Step A A
  recv_from blank [] c handle = recv_buffered blank c handle
  recv_from blank (sender ∷ rest) c handle = record {
    channel = record c { waiting_senders = rest };
    outcome = done sender.value;
    resumed = sent sender.handle ∷ [];
  }

  -- `RecvAwaiter::await_suspend`.
  unfoldable pub recv : A → Channel A → ℕ → Step A A
  recv blank c handle = recv_from blank c.waiting_senders c handle

  abbrev pub close_sender : SendAwaiter A → Resumed A
  close_sender s = closed s.handle

  -- The channel and the coroutines put on the run queue.
  unfoldable pub destroy : Channel A → Channel A × List (Resumed A)
  destroy c = if c.is_closed then (c, []) else (
    record c { waiting_senders = []; is_closed = true },
    map close_sender c.waiting_senders ++ map closed c.waiting_receivers,
  )

  unfoldable pub add_sender : Channel A → Channel A
  add_sender c = record c { num_senders = next c.num_senders }

  unfoldable pub add_receiver : Channel A → Channel A
  add_receiver c = record c { num_receivers = next c.num_receivers }

  unfoldable pub sub_sender : Channel A → Channel A × List (Resumed A)
  sub_sender c =
      let fewer = record c { num_senders = sub_size c.num_senders 1 } in
      if c.num_senders == 1 then destroy fewer else (fewer, [])

  unfoldable pub sub_receiver : Channel A → Channel A × List (Resumed A)
  sub_receiver c =
      let fewer = record c { num_receivers = sub_size c.num_receivers 1 } in
      if c.num_receivers == 1 then destroy fewer else (fewer, [])
