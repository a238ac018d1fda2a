-- ===== src/LockFree/Fifo.antt =====
-- Whatever the interleaving, a `LockFreeQueue` is first in, first out.
use native.Mathlib.Nat.{mod-eq_of_lt, mod_self}
use mathlib.Core.List.{append_assoc}
use nasdaq_order_book.Base.{
  ℕ, zero, suc, ◌+◌, ◌-◌, ◌%◌, ◌≤◌, ◌<◌, ◌≡◌, ◌≢◌, inl, inr, refl, sym, ap, ◌∙◌, true, false, List,
  [], ◌∷◌, ◌++◌, arith, ltb, ◌==◌, if◌then◌else◌, update, ℕ-cases,
}
use nasdaq_order_book.LockFree.{
  LockFreeQueue, init, next_index, is_full, is_empty, write_slot, publish_tail, publish_head,
}
use nasdaq_order_book.LockFree.Threads.{
  Producer, resting, tested, written, Consumer, waiting, ready, loaded, World, Step, push_tests,
  push_writes, push_publishes, pop_tests, pop_reads, pop_publishes, Steps, stop, more,
}

-- The slot that is `k` after `h` on the ring.
abbrev pub slot : ℕ → ℕ → ℕ → ℕ
slot size h k = if ltb (h + k) size then h + k else h + k - size

suc_index : (size i : ℕ) → i < size → (i + 1) % size ≡ slot size i 1
suc_index size i h = elim (ℕ-cases (i + 1) size) [
  | inl wrap ↦ ground (arith, mod_self size, ap (λ x. x % size) wrap)
  | inr inside ↦ ground (arith, mod-eq_of_lt {n = i + 1} {m = size} (ground arith))
]

==_refl : (i : ℕ) → (i == i) ≡ true
==_refl i = ground arith

module _ {ℓ} {T : Type ℓ} where
  -- The `n` items from slot `h` on
  unfoldable pub items : (ℕ → T) → ℕ → ℕ → ℕ → List T
  items buf size h zero = []
  items buf size h (suc n) = buf h ∷ items buf size (slot size h 1) n

  items-snoc :
      (buf : ℕ → T) (size h n : ℕ)
      → h < size
      → suc n ≤ size
      → items buf size h (suc n) ≡ items buf size h n ++ (buf (slot size h n) ∷ [])
  unfolding items
  items-snoc buf size h zero lt le = ap (λ i. buf i ∷ []) (ground arith)
  items-snoc buf size h (suc n) lt le =
      ap (λ l. buf h ∷ l)
        (items-snoc buf size (slot size h 1) n (ground arith) (ground arith)
          ∙ ap (λ i. items buf size (slot size h 1) n ++ (buf i ∷ [])) (ground arith))

  -- A write past the `n` items leaves them.
  items-update :
      (buf : ℕ → T) (size h n s : ℕ) (v : T)
      → h < size
      → n < size
      → ((k : ℕ) → k < n → slot size h k ≢ s)
      → items (update buf s v) size h n ≡ items buf size h n
  unfolding items
  items-update buf size h zero s v lt le away = refl
  items-update buf size h (suc n) s v lt le away =
      let later =
        items-update buf size (slot size h 1) n s v (ground arith) (ground arith)
          (λ k below e. away (suc k) (ground arith) (ground arith)) in
      let first : (h == s) ≡ false = ground (arith, away 0 (ground arith)) in
      ap (λ l. (if h == s then v else buf h) ∷ l) later
      ∙ ap (λ b. (if b then v else buf h) ∷ items buf size (slot size h 1) n) first

  -- What the call in progress knows, with `n` items in the queue.
  abbrev pub IsProducer : LockFreeQueue T → ℕ → Producer T → Type ℓ
  IsProducer q n resting = Unit
  IsProducer q n (tested v) = (suc n < q.size) × Unit {ℓ}
  IsProducer q n (written v) = (suc n < q.size) × (q.buffer q.tail ≡ v)

  abbrev pub IsConsumer : LockFreeQueue T → ℕ → Consumer T → Type ℓ
  IsConsumer q n waiting = Unit
  IsConsumer q n ready = (0 < n) × Unit {ℓ}
  IsConsumer q n (loaded v) = (0 < n) × (q.buffer q.head ≡ v)

  -- The items lie between the two indices, one slot stays free, and what was pushed is what was
  -- popped and then the items.
  pub record IsWorld (w : World T) : Type ℓ where
    pub count : ℕ
    pub head_inside : w.queue.head < w.queue.size
    pub tail_at : w.queue.tail ≡ slot w.queue.size w.queue.head count
    pub one_free : count < w.queue.size
    pub fifo : w.pushed ≡ w.popped ++ items w.queue.buffer w.queue.size w.queue.head count
    pub producing : IsProducer w.queue count w.producer
    pub consuming : IsConsumer w.queue count w.consumer

  is_full-false :
      (q : LockFreeQueue T) (n : ℕ)
      → q.head < q.size
      → q.tail ≡ slot q.size q.head n
      → n < q.size
      → is_full q ≡ false
      → suc n < q.size
  unfolding is_full next_index
  is_full-false q n inside at free some_left =
      ground (arith, suc_index q.size q.tail (ground arith))

  is_empty-false :
      (q : LockFreeQueue T) (n : ℕ)
      → q.head < q.size
      → q.tail ≡ slot q.size q.head n
      → is_empty q ≡ false
      → 0 < n
  unfolding is_empty
  is_empty-false q n inside at some_left = ground arith

  write-IsConsumer :
      (q : LockFreeQueue T) (c : Consumer T) (n : ℕ) (x : T)
      → q.head < q.size
      → q.tail ≡ slot q.size q.head n
      → n < q.size
      → IsConsumer q n c
      → IsConsumer (write_slot q x) n c
  unfolding write_slot
  write-IsConsumer q waiting n x inside at free h = tt
  write-IsConsumer q ready n x inside at free h = h
  write-IsConsumer q (loaded v) n x inside at free h =
      let other : (q.head == q.tail) ≡ false = ground arith in
      (h.0, ap (λ b. if b then x else q.buffer q.head) other ∙ h.1)

  write-IsWorld :
      (q : LockFreeQueue T) (c : Consumer T) (ps rs : List T) (x : T)
      → IsWorld (record { queue = q; producer = tested x; consumer = c; pushed = ps; popped = rs })
      → IsWorld (record {
        queue = write_slot q x;
        producer = written x;
        consumer = c;
        pushed = ps;
        popped = rs;
      })
  unfolding write_slot
  write-IsWorld q c ps rs x inv = record {
    count = inv.count;
    head_inside = inv.head_inside;
    tail_at = inv.tail_at;
    one_free = inv.one_free;
    fifo =
        inv.fifo
        ∙ ap (λ l. rs ++ l)
            (sym (
              items-update q.buffer q.size q.head inv.count q.tail x inv.head_inside inv.one_free
                (λ k below e. ground (arith, inv.tail_at, inv.head_inside, inv.one_free))));
    producing = (inv.producing.0, ap (λ b. if b then x else q.buffer q.tail) (==_refl q.tail));
    consuming =
        write-IsConsumer q c inv.count x inv.head_inside inv.tail_at inv.one_free inv.consuming;
  }

  later-IsConsumer :
      (q : LockFreeQueue T) (c : Consumer T) (n : ℕ)
      → IsConsumer q n c
      → IsConsumer (publish_tail q) (suc n) c
  unfolding publish_tail
  later-IsConsumer q waiting n h = tt
  later-IsConsumer q ready n h = (omega arith, tt)
  later-IsConsumer q (loaded v) n h = (omega arith, h.1)

  fifo_push :
      (q : LockFreeQueue T) (rs ps : List T) (x : T) (n : ℕ)
      → ps ≡ rs ++ items q.buffer q.size q.head n
      → items q.buffer q.size q.head (suc n) ≡ items q.buffer q.size q.head n ++ (x ∷ [])
      → ps ++ (x ∷ []) ≡ rs ++ items q.buffer q.size q.head (suc n)
  fifo_push q rs ps x n order last =
      ap (λ l. l ++ (x ∷ [])) order
      ∙ append_assoc rs (items q.buffer q.size q.head n) (x ∷ [])
      ∙ ap (λ l. rs ++ l) (sym last)

  publish-IsWorld :
      (q : LockFreeQueue T) (c : Consumer T) (ps rs : List T) (x : T)
      → IsWorld (record { queue = q; producer = written x; consumer = c; pushed = ps; popped = rs })
      → IsWorld (record {
        queue = publish_tail q;
        producer = resting;
        consumer = c;
        pushed = ps ++ (x ∷ []);
        popped = rs;
      })
  unfolding publish_tail next_index
  publish-IsWorld q c ps rs x inv = record {
    count = suc inv.count;
    head_inside = inv.head_inside;
    tail_at = ground (
      arith,
      suc_index q.size q.tail (ground (arith, inv.tail_at, inv.head_inside, inv.one_free)),
      inv.tail_at,
      inv.head_inside,
      inv.producing.0,
    );
    one_free = inv.producing.0;
    fifo = fifo_push q rs ps x inv.count inv.fifo (
        items-snoc q.buffer q.size q.head inv.count inv.head_inside (omega (arith, inv.one_free))
        ∙ ap (λ b. items q.buffer q.size q.head inv.count ++ (b ∷ []))
            (ap q.buffer (sym inv.tail_at) ∙ inv.producing.1));
    producing = tt;
    consuming = later-IsConsumer q c inv.count inv.consuming;
  }

  earlier-IsProducer :
      (q : LockFreeQueue T) (p : Producer T) (n : ℕ)
      → IsProducer q (suc n) p
      → IsProducer (publish_head q) n p
  unfolding publish_head
  earlier-IsProducer q resting n h = tt
  earlier-IsProducer q (tested v) n h = (omega (arith, h.0), tt)
  earlier-IsProducer q (written v) n h = (omega (arith, h.0), h.1)

  consume-IsWorld :
      (q : LockFreeQueue T) (p : Producer T) (ps rs : List T) (x : T) (n : ℕ)
      → (inv : IsWorld
          (record { queue = q; producer = p; consumer = loaded x; pushed = ps; popped = rs }))
      → inv.count ≡ n
      → IsWorld (record {
        queue = publish_head q;
        producer = p;
        consumer = waiting;
        pushed = ps;
        popped = rs ++ (x ∷ []);
      })
  unfolding publish_head next_index items
  consume-IsWorld q p ps rs x zero inv e = absurd (omega (arith, inv.consuming.0, e))
  consume-IsWorld q p ps rs x (suc n) inv e = record {
    count = n;
    head_inside = ground (arith, suc_index q.size q.head inv.head_inside, inv.head_inside);
    tail_at = ground (
      arith,
      suc_index q.size q.head inv.head_inside,
      inv.head_inside,
      inv.tail_at,
      inv.one_free,
      e,
    );
    one_free = omega (arith, inv.one_free, e);
    fifo =
        inv.fifo
        ∙ ap (λ k. rs ++ items q.buffer q.size q.head k) e
        ∙ ap (λ y. rs ++ (y ∷ items q.buffer q.size (slot q.size q.head 1) n)) inv.consuming.1
        ∙ ap (λ i. rs ++ (x ∷ items q.buffer q.size i n))
            (sym (suc_index q.size q.head inv.head_inside))
        ∙ sym (append_assoc rs (x ∷ []) (items q.buffer q.size (next_index q q.head) n));
    producing = earlier-IsProducer q p n (rw e at inv.producing);
    consuming = tt;
  }

  Step-IsWorld : (u v : World T) → Step u v → IsWorld u → IsWorld v
  Step-IsWorld u v (push_tests q c ps rs x room) inv = record {
    count = inv.count;
    head_inside = inv.head_inside;
    tail_at = inv.tail_at;
    one_free = inv.one_free;
    fifo = inv.fifo;
    producing = (is_full-false q inv.count inv.head_inside inv.tail_at inv.one_free room, tt);
    consuming = inv.consuming;
  }
  Step-IsWorld u v (push_writes q c ps rs x) inv = write-IsWorld q c ps rs x inv
  Step-IsWorld u v (push_publishes q c ps rs x) inv = publish-IsWorld q c ps rs x inv
  Step-IsWorld u v (pop_tests q p ps rs some_left) inv = record {
    count = inv.count;
    head_inside = inv.head_inside;
    tail_at = inv.tail_at;
    one_free = inv.one_free;
    fifo = inv.fifo;
    producing = inv.producing;
    consuming = (is_empty-false q inv.count inv.head_inside inv.tail_at some_left, tt);
  }
  Step-IsWorld u v (pop_reads q p ps rs) inv = record {
    count = inv.count;
    head_inside = inv.head_inside;
    tail_at = inv.tail_at;
    one_free = inv.one_free;
    fifo = inv.fifo;
    producing = inv.producing;
    consuming = (inv.consuming.0, refl);
  }
  Step-IsWorld u v (pop_publishes q p ps rs x) inv = consume-IsWorld q p ps rs x inv.count inv refl

  Steps-IsWorld : (u v : World T) → Steps u v → IsWorld u → IsWorld v
  Steps-IsWorld u v (stop w) inv = inv
  Steps-IsWorld u v (more u' m v' s ss) inv = Steps-IsWorld m v ss (Step-IsWorld u m s inv)

  -- From an empty queue, every interleaving of the two threads keeps this: what was pushed is what
  -- was popped followed by the items on the ring from the head to the tail, of which there are fewer
  -- than the buffer has slots.
  pub Steps-fifo :
      (default : T) (capacity : ℕ) (w : World T)
      → 0 < capacity
      → Steps
          (record {
            queue = init default capacity;
            producer = resting;
            consumer = waiting;
            pushed = [];
            popped = [];
          })
          w
      → (n : ℕ) × (n < w.queue.size)
        × (w.queue.tail ≡ slot w.queue.size w.queue.head n)
        × (w.pushed ≡ w.popped ++ items w.queue.buffer w.queue.size w.queue.head n)
  unfolding init items
  Steps-fifo default capacity w pos ss =
      let inv = Steps-IsWorld _ w ss (record {
        count = 0;
        head_inside = pos;
        tail_at = ground arith;
        one_free = pos;
        fifo = refl;
        producing = tt;
        consuming = tt;
      }) in
      (inv.count, inv.one_free, inv.tail_at, inv.fifo)
