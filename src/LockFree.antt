-- ===== src/LockFree.antt =====
-- `LockFreeQueue` of include/lock_free_queue.hpp. The capacity that the constructor is given is at
-- least 1.
pub mod Fifo
pub mod Threads
mod Tests
use nasdaq_order_book.Base.{
  ℕ, ◌+◌, ◌%◌, Bool, true, false, Option, none, some, ◌==◌, if◌then◌else◌, update,
}

pub record LockFreeQueue {ℓ} (T : Type ℓ) : Type ℓ where
  pub buffer : ℕ → T
  pub size : ℕ
  pub head : ℕ
  pub tail : ℕ

module _ {ℓ} {T : Type ℓ} where
  -- The buffer holds default values at first.
  unfoldable pub init : T → ℕ → LockFreeQueue T
  init default capacity = record { buffer = λ _. default; size = capacity; head = 0; tail = 0 }

  -- `(tail + 1) % buffer_.size()`; the sum does not wrap, as `tail` is below the size.
  unfoldable pub next_index : LockFreeQueue T → ℕ → ℕ
  next_index q i = (i + 1) % q.size

  unfoldable pub is_full : LockFreeQueue T → Bool
  is_full q = next_index q q.tail == q.head

  unfoldable pub is_empty : LockFreeQueue T → Bool
  is_empty q = q.head == q.tail

  -- The three stores of the code
  unfoldable pub write_slot : LockFreeQueue T → T → LockFreeQueue T
  write_slot q value = record q { buffer = update q.buffer q.tail value }

  unfoldable pub publish_tail : LockFreeQueue T → LockFreeQueue T
  publish_tail q = record q { tail = next_index q q.tail }

  unfoldable pub publish_head : LockFreeQueue T → LockFreeQueue T
  publish_head q = record q { head = next_index q q.head }

  unfoldable pub push : LockFreeQueue T → T → Bool × LockFreeQueue T
  push q value = if is_full q then (false, q) else (true, publish_tail (write_slot q value))

  unfoldable pub pop : LockFreeQueue T → Option T × LockFreeQueue T
  pop q = if is_empty q then (none, q) else (some (q.buffer q.head), publish_head q)
