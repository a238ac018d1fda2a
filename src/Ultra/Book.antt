-- ===== src/Ultra/Book.antt =====
-- `UltraOrderBook` and `TemplatedUltraOrderBook` of include/order_book.hpp. An array of levels is a
-- function that is read and written below `ultra_price_levels`.
pub mod Best
pub mod Cases
pub mod Faults
pub mod Lifecycle
pub mod Renewal
pub mod Resting
pub mod Totals
use nasdaq_order_book.Base.{
  ℕ, zero, suc, ◌+◌, ◌-◌, ◌<◌, Bool, true, false, ◌||◌, Option, none, some, ltb, ◌==◌,
  if◌then◌else◌, update, add16, sub16, add32, sub32,
}
use nasdaq_order_book.Ultra.Order.{
  Ptr, UltraOrder, UltraPriceLevel, zero_level, get_side, set_id_side,
}
use nasdaq_order_book.Ultra.Pool
use nasdaq_order_book.Ultra.Pool.{UltraPool, ultra_fast_acquire}
use nasdaq_order_book.Ultra.Table
use nasdaq_order_book.Ultra.Table.{
  UltraTable, ultra_hash, probe, ultra_find, ultra_insert, ultra_remove,
}

abbrev pub ultra_min_price : ℕ
ultra_min_price = 40000

abbrev pub ultra_max_price : ℕ
ultra_max_price = 60000

abbrev pub ultra_price_levels : ℕ
ultra_price_levels = 20001

abbrev pub Levels : Type 0
Levels = ℕ → UltraPriceLevel

pub record UltraBook : Type 0 where
  pub bid_levels : Levels
  pub ask_levels : Levels
  pub order_hash : UltraTable
  pub order_pool : UltraPool

-- `std::make_unique<UltraOrderBook>()`, over what the pool's memory holds. There is no constructor, so
-- the book is first filled with zeros, and then the table and the pool are made.
unfoldable pub new : (ℕ → UltraOrder) → ℕ → UltraBook
unfolding Pool.new
new garbage capacity = record {
  bid_levels = λ i. zero_level;
  ask_levels = λ i. zero_level;
  order_hash = Table.new;
  order_pool = Pool.new garbage capacity;
}

-- `UltraOrderBook ob;`: nothing initialises the levels, which are what the memory held.
unfoldable pub uninitialised : Levels → Levels → (ℕ → UltraOrder) → ℕ → UltraBook
unfolding new
uninitialised bids asks garbage capacity = record (new garbage capacity) {
  bid_levels = bids;
  ask_levels = asks;
}

unfoldable pub ultra_price_to_index : ℕ → ℕ
ultra_price_to_index price =
    if ltb price ultra_min_price || ltb ultra_max_price price then 0 else price - ultra_min_price

-- `is_buy ? bid_levels_ : ask_levels_`
unfoldable pub levels : UltraBook → Bool → Levels
levels b is_buy = if is_buy then b.bid_levels else b.ask_levels

-- A write to `levels[i]`.
unfoldable pub set_level : UltraBook → Bool → ℕ → UltraPriceLevel → UltraBook
set_level b is_buy i l = record b {
  bid_levels = if is_buy then update b.bid_levels i l else b.bid_levels;
  ask_levels = if is_buy then b.ask_levels else update b.ask_levels i l;
}

-- A write to `*order`.
unfoldable pub set_order : UltraBook → ℕ → UltraOrder → UltraBook
set_order b a o = record b {
  order_pool = record (b.order_pool) { mem = update b.order_pool.mem a o };
}

unfoldable pub ultra_add_to_level : UltraBook → ℕ → Bool → ℕ → UltraBook
ultra_add_to_level b a is_buy i =
    let o = b.order_pool.mem a in
    let l = levels b is_buy i in
    set_level (set_order b a (record o { next = l.first_order })) is_buy i (record {
      total_quantity = add32 l.total_quantity o.quantity;
      order_count = add16 l.order_count 1;
      first_order = some a;
    })

-- The fields of a fresh order.
unfoldable pub fill_order : UltraOrder → ℕ → ℕ → ℕ → ℕ → UltraOrder
unfolding set_id_side
fill_order o id side quantity price = record (set_id_side o id side) {
  quantity = quantity;
  price = price;
  next = none;
}

-- The part of `ultra_addOrder` after the allocation. The prefetch has no effect on the state.
unfoldable pub place : UltraBook → ℕ → ℕ → ℕ → ℕ → ℕ → UltraBook
place b a id side quantity price =
    let b₁ = set_order b a (fill_order (b.order_pool.mem a) id side quantity price) in
    let b₂ = ultra_add_to_level b₁ a (side == b'B') (ultra_price_to_index price) in
    record b₂ { order_hash = ultra_insert b₂.order_hash id (some a) }

-- What `ultra_addOrder` does with the pool's answer; null is an exhausted pool.
unfoldable pub add_new : UltraBook → Ptr × UltraPool → ℕ → ℕ → ℕ → ℕ → UltraBook
add_new b (none, pool) id side quantity price = record b { order_pool = pool }
add_new b (some a, pool) id side quantity price =
    place (record b { order_pool = pool }) a id side quantity price

unfoldable pub ultra_add_order : UltraBook → ℕ → ℕ → ℕ → ℕ → UltraBook
ultra_add_order b id side quantity price = elim (ultra_find b.order_hash id) [
  | some _ ↦ b
  | none ↦ add_new b (ultra_fast_acquire b.order_pool) id side quantity price
]

-- `ultra_executeOrder` at the order that was found.
unfoldable pub execute_at : UltraBook → ℕ → ℕ → UltraBook
execute_at b a executed_qty =
    let o = b.order_pool.mem a in
    let i = ultra_price_to_index o.price in
    let is_buy = get_side o == b'B' in
    let l = levels b is_buy i in
    let removed = if ltb executed_qty o.quantity then executed_qty else o.quantity in
    let left = o.quantity - removed in
    set_level (set_order b a (record o { quantity = left })) is_buy i (record l {
      total_quantity = sub32 l.total_quantity removed;
      order_count = if left == 0 then sub16 l.order_count 1 else l.order_count;
    })

unfoldable pub ultra_execute_order : UltraBook → ℕ → ℕ → UltraBook
ultra_execute_order b id executed_qty = elim (ultra_find b.order_hash id) [
  | none ↦ b
  | some a ↦ execute_at b a executed_qty
]

-- The part that `ultra_deleteOrder` and `ultra_replaceOrder` share: the level is adjusted and the
-- order's quantity is set to zero.
unfoldable pub retire : UltraBook → ℕ → UltraBook
retire b a =
    let o = b.order_pool.mem a in
    let i = ultra_price_to_index o.price in
    let is_buy = get_side o == b'B' in
    let l = levels b is_buy i in
    set_level (set_order b a (record o { quantity = 0 })) is_buy i (record l {
      total_quantity = sub32 l.total_quantity o.quantity;
      order_count = sub16 l.order_count 1;
    })

unfoldable pub forget : UltraBook → ℕ → UltraBook
forget b id = record b { order_hash = ultra_remove b.order_hash id }

unfoldable pub ultra_delete_order : UltraBook → ℕ → UltraBook
ultra_delete_order b id = elim (ultra_find b.order_hash id) [
  | none ↦ b
  | some a ↦ forget (retire b a) id
]

unfoldable pub ultra_replace_order : UltraBook → ℕ → ℕ → ℕ → ℕ → UltraBook
ultra_replace_order b old_id new_id new_qty new_price = elim (ultra_find b.order_hash old_id) [
  | none ↦ b
  | some a ↦
      ultra_add_order (forget (retire b a) old_id) new_id (get_side (b.order_pool.mem a)) new_qty
        new_price
]

-- The loop of `ultra_getBestBid` over the levels below `n`, from the highest down.
unfoldable pub best_bid_loop : ℕ → Levels → ℕ
best_bid_loop zero ls = 0
best_bid_loop (suc n) ls =
    let rest = best_bid_loop n ls in
    if ltb 0 (ls n).total_quantity then ultra_min_price + n else rest

unfoldable pub ultra_get_best_bid : UltraBook → ℕ
unfolding best_bid_loop
ultra_get_best_bid b = best_bid_loop ultra_price_levels b.bid_levels

-- The loop of `ultra_getBestAsk` with `n` levels left, from level `i` up.
unfoldable pub best_ask_loop : ℕ → Levels → ℕ → ℕ
best_ask_loop zero ls i = 0
best_ask_loop (suc n) ls i =
    let rest = best_ask_loop n ls (i + 1) in
    if ltb 0 (ls i).total_quantity then ultra_min_price + i else rest

unfoldable pub ultra_get_best_ask : UltraBook → ℕ
unfolding best_ask_loop
ultra_get_best_ask b = best_ask_loop ultra_price_levels b.ask_levels 0

unfoldable pub reset_pool : UltraBook → UltraBook
unfolding Pool.reset
reset_pool b = record b {
  order_pool = Pool.reset b.order_pool;
  bid_levels = λ i. zero_level;
  ask_levels = λ i. zero_level;
}

-- `TemplatedUltraOrderBook<Side>::addOrder`
unfoldable pub add_order_on_side : ℕ → UltraBook → ℕ → ℕ → ℕ → UltraBook
add_order_on_side side b id quantity price = ultra_add_order b id side quantity price

-- What a run of the book unfolds.
unfoldable pub steps : Unit {0}
unfolding Pool.new Pool.reset ultra_fast_acquire set_id_side get_side ultra_hash probe ultra_find
    ultra_insert ultra_remove ultra_price_to_index levels set_level set_order ultra_add_to_level
    fill_order place add_new ultra_add_order execute_at ultra_execute_order retire forget
    ultra_delete_order ultra_replace_order best_bid_loop best_ask_loop
steps = tt
