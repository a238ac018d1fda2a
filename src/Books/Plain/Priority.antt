-- ===== src/Books/Plain/Priority.antt =====
-- `OrderBook` keeps the orders of a price in the order in which they came.
use nasdaq_order_book.Base.{
  true-false, has, ℕ, ◌+◌, ◌<◌, ◌≡◌, refl, sym, ap, ◌∙◌, inl, inr, Bool, true, false, ℕ-cases,
  arith, none, some, List, [], ◌∷◌, ◌++◌, ◌==◌, update,
}
use nasdaq_order_book.Base.Assoc.{insert, lookup, lookup-insert}
use nasdaq_order_book.Books.Memory.{Order, Storage, pool_size, next_place, acquire_order, fresh}
use nasdaq_order_book.Books.Chain.{frame}
use nasdaq_order_book.Books.Plain.{
  State, PriceLevel, Levels, levels, set_levels, set_storage, set_order, set_entries, append_links,
  append, level_or_new, add_to_level, level_of, place, add_order,
}
use nasdaq_order_book.Books.Plain.Queue.{IsQueue, held, append-IsQueue}

-- At this side and price, the orders `xs` wait, the first of which came first; where there is no level,
-- none does.
abbrev pub Waits : State → Bool → ℕ → List ℕ → Type 0
Waits s is_buy price xs = IsQueue s.pool.storage (level_or_new (lookup price (levels s is_buy))) xs

pub levels-set_levels :
    (s : State) (is_buy : Bool) (ls : Levels) → levels (set_levels s is_buy ls) is_buy ≡ ls
unfolding levels set_levels
levels-set_levels s true ls = refl
levels-set_levels s false ls = refl

found_there :
    {l : PriceLevel} (ls ks : Levels) (price : ℕ)
    → ks ≡ insert price l ls
    → lookup price ks ≡ some l
found_there {l} ls ks price e = ap (lookup price) e ∙ lookup-insert price price l ls ∙ ground arith

held-update :
    (m : Storage) (xs : List ℕ) (a : ℕ) (o : Order)
    → has a xs ≡ false
    → held (update m a o) xs ≡ held m xs
held-update m [] a o out = refl
held-update m (x ∷ xs) a o out = ground (arith, out, held-update m xs a o (ground (arith, out)))

-- A write to an order that does not wait here.
IsQueue-update :
    (m : Storage) (l : PriceLevel) (xs : List ℕ) (a : ℕ) (o : Order)
    → has a xs ≡ false
    → IsQueue m l xs
    → IsQueue (update m a o) l xs
IsQueue-update m l xs a o out queue = record {
  head = queue.head;
  tail = queue.tail;
  distinct = queue.distinct;
  linked =
      frame m (update m a o) none xs none
        (λ z i. elim (ℕ-cases z a) [
          | inl eq ↦ absurd (true-false (sym i ∙ ap (λ k. has k xs) eq ∙ out))
          | inr other ↦ rw (other) refl
        ])
        queue.linked;
  total = rw (held-update m xs a o out) queue.total;
}

module _ (s : State) (a : ℕ) where
  abbrev o : Order
  o = s.pool.storage a

  abbrev is_buy : Bool
  is_buy = o.side == b'B'

  level-add_to_level :
      lookup o.price (levels (add_to_level s a) is_buy)
      ≡ some (append a o.quantity (level_or_new (level_of s a)))
  unfolding add_to_level level_of
  level-add_to_level =
      found_there (levels s is_buy) (levels (add_to_level s a) is_buy) o.price
        (levels-set_levels (set_storage s _) is_buy _)

  storage-add_to_level :
      (add_to_level s a).pool.storage ≡ append_links s.pool.storage a (level_or_new (level_of s a))
  unfolding add_to_level set_levels set_storage
  storage-add_to_level = refl

  add_to_level-Waits :
      (xs : List ℕ)
      → o.next ≡ none
      → o.prev ≡ none
      → has a xs ≡ false
      → Waits s is_buy o.price xs
      → Waits (add_to_level s a) is_buy o.price (xs ++ a ∷ [])
  unfolding level_of level_or_new
  add_to_level-Waits xs next prev out waits =
      rw (level-add_to_level, storage-add_to_level)
        (append-IsQueue s.pool.storage (level_or_new (level_of s a)) xs a next prev out waits)

place-Waits :
    (s : State) (id side q p : ℕ) (xs : List ℕ)
    → s.pool.index < pool_size
    → has s.pool.index xs ≡ false
    → Waits s (side == b'B') p xs
    → Waits (place s id side q p) (side == b'B') p (xs ++ s.pool.index ∷ [])
unfolding place next_place acquire_order set_order set_storage set_entries levels fresh
place-Waits s id side q p xs room out waits =
    let a = s.pool.index in
    let here : next_place s.pool ≡ a = ground arith in
    let s₁ =
      set_order (record s { pool = record (s.pool) { index = a + 1 } }) a (fresh id side q p) in
    let s₂ = set_entries s₁ (insert id a s.book.orders) in
    let written : s₂.pool.storage a ≡ fresh id side q p = ground arith in
    let joined = rw written at (add_to_level-Waits s₂ a xs) in
    rw (here) (
      joined refl refl out (
        IsQueue-update s.pool.storage (level_or_new (lookup p (levels s (side == b'B')))) xs a
          (fresh id side q p) out waits))

add_order-new :
    (s : State) (id side q p : ℕ)
    → lookup id s.book.orders ≡ none
    → add_order s id side q p ≡ place s id side q p
unfolding add_order
add_order-new s id side q p unused = rw (unused, add_order) refl

-- A new order of an identifier that is not in use waits behind those that the book holds on its side
-- at its price, as long as the pool is not used up and its next place does not wait there already: once
-- the pool is used up, places are handed out again and waiting orders are overwritten.
pub add_order-Waits :
    (s : State) (id side q p : ℕ) (xs : List ℕ)
    → lookup id s.book.orders ≡ none
    → s.pool.index < pool_size
    → has s.pool.index xs ≡ false
    → Waits s (side == b'B') p xs
    → Waits (add_order s id side q p) (side == b'B') p (xs ++ s.pool.index ∷ [])
add_order-Waits s id side q p xs unused room out waits =
    rw (add_order-new s id side q p unused) (place-Waits s id side q p xs room out waits)
