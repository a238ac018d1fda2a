-- ===== src/LockFree/Threads.antt =====
-- One producer and one consumer of a `LockFreeQueue`: every interleaving of the loads and stores of
-- `push` and `pop`. The acquire loads and release stores order them as they stand.
use nasdaq_order_book.Base.{◌≡◌, false, List, [], ◌∷◌, ◌++◌}
use nasdaq_order_book.LockFree.{
  LockFreeQueue, is_full, is_empty, write_slot, publish_tail, publish_head,
}

-- Where a call of `push` stands: not begun, past its test, or past its write.
pub data Producer {ℓ} (T : Type ℓ) : Type ℓ where
  resting : Producer T
  tested : T → Producer T
  written : T → Producer T

-- Where a call of `pop` stands: not begun, past its test, or past its read.
pub data Consumer {ℓ} (T : Type ℓ) : Type ℓ where
  waiting : Consumer T
  ready : Consumer T
  loaded : T → Consumer T

pub record World {ℓ} (T : Type ℓ) : Type ℓ where
  pub queue : LockFreeQueue T
  pub producer : Producer T
  pub consumer : Consumer T
  -- what `push` has accepted and what `pop` has returned, in order
  pub pushed : List T
  pub popped : List T

module _ {ℓ} {T : Type ℓ} where
  -- Calls that find the queue full or empty return at once and change nothing.
  pub data Step : World T → World T → Type ℓ where
    push_tests :
        (q : LockFreeQueue T) (c : Consumer T) (ps rs : List T) (v : T)
        → is_full q ≡ false
        → Step
            (record { queue = q; producer = resting; consumer = c; pushed = ps; popped = rs })
            (record { queue = q; producer = tested v; consumer = c; pushed = ps; popped = rs })
    push_writes :
        (q : LockFreeQueue T) (c : Consumer T) (ps rs : List T) (v : T)
        → Step
            (record { queue = q; producer = tested v; consumer = c; pushed = ps; popped = rs })
            (record {
              queue = write_slot q v;
              producer = written v;
              consumer = c;
              pushed = ps;
              popped = rs;
            })
    push_publishes :
        (q : LockFreeQueue T) (c : Consumer T) (ps rs : List T) (v : T)
        → Step
            (record { queue = q; producer = written v; consumer = c; pushed = ps; popped = rs })
            (record {
              queue = publish_tail q;
              producer = resting;
              consumer = c;
              pushed = ps ++ (v ∷ []);
              popped = rs;
            })
    pop_tests :
        (q : LockFreeQueue T) (p : Producer T) (ps rs : List T)
        → is_empty q ≡ false
        → Step
            (record { queue = q; producer = p; consumer = waiting; pushed = ps; popped = rs })
            (record { queue = q; producer = p; consumer = ready; pushed = ps; popped = rs })
    pop_reads :
        (q : LockFreeQueue T) (p : Producer T) (ps rs : List T)
        → Step
            (record { queue = q; producer = p; consumer = ready; pushed = ps; popped = rs })
            (record {
              queue = q;
              producer = p;
              consumer = loaded (q.buffer q.head);
              pushed = ps;
              popped = rs;
            })
    pop_publishes :
        (q : LockFreeQueue T) (p : Producer T) (ps rs : List T) (v : T)
        → Step
            (record { queue = q; producer = p; consumer = loaded v; pushed = ps; popped = rs })
            (record {
              queue = publish_head q;
              producer = p;
              consumer = waiting;
              pushed = ps;
              popped = rs ++ (v ∷ []);
            })

  pub data Steps : World T → World T → Type ℓ where
    stop : (w : World T) → Steps w w
    more : (u v w : World T) → Step u v → Steps v w → Steps u w
