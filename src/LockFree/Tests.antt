-- ===== src/LockFree/Tests.antt =====
-- A queue of two slots.
use nasdaq_order_book.Base.{ℕ, ◌<◌, ◌≡◌, refl, false, some, [], ◌∷◌, ◌++◌, arith}
use nasdaq_order_book.LockFree.{
  LockFreeQueue, init, push, pop, next_index, is_full, is_empty, write_slot, publish_tail,
  publish_head,
}
use nasdaq_order_book.LockFree.Threads.{
  World, resting, waiting, Steps, stop, more, push_tests, push_writes, push_publishes,
}
use nasdaq_order_book.LockFree.Fifo.{slot, items, Steps-fifo}

abbrev start : LockFreeQueue ℕ
start = init 0 2

-- One slot stays free, so the second push fails.
second_push_fails : (push (push start 5).1 6).0 ≡ false
unfolding init push is_full next_index write_slot publish_tail
second_push_fails = refl

pop_returns : (pop (push start 5).1).0 ≡ some 5
unfolding init push pop is_full is_empty next_index write_slot publish_tail publish_head
pop_returns = refl

start_has_room : is_full start ≡ false
unfolding init is_full next_index
start_has_room = refl

abbrev after : World ℕ
after = record {
  queue = publish_tail (write_slot start 5);
  producer = resting;
  consumer = waiting;
  pushed = 5 ∷ [];
  popped = [];
}

one_push :
    Steps
      (record { queue = start; producer = resting; consumer = waiting; pushed = []; popped = [] })
      after
one_push = more _ _ after (push_tests start waiting [] [] 5 start_has_room) (
    more _ _ after (push_writes start waiting [] [] 5)
      (more _ _ after (push_publishes (write_slot start 5) waiting [] [] 5) (stop after)))

Steps-fifo_example :
    (n : ℕ) × (n < after.queue.size)
    × (after.queue.tail ≡ slot after.queue.size after.queue.head n)
    × (after.pushed ≡ after.popped ++ items after.queue.buffer after.queue.size after.queue.head n)
Steps-fifo_example = Steps-fifo 0 2 after (omega arith) one_push
