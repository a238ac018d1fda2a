-- ===== src/Books/Fast.antt =====
-- `OptimizedOrderBook` of include/order_book.hpp and src/order_book.cpp, with the pool it takes its
-- orders from. An array of levels is a function that is read and written below `price_levels`.
pub mod Refine
use nasdaq_order_book.Base.{
  ℕ, zero, suc, ◌+◌, ◌-◌, Bool, ◌||◌, ◌&&◌, Option, none, some, List, [], ◌∷◌, ltb, ◌==◌, not,
  if◌then◌else◌, update, min, add16, sub16, add32, sub32,
}
use nasdaq_order_book.Base.Assoc.{lookup, insert, erase}
use nasdaq_order_book.Core.Event.{ItchEvent, add, exec, cancel, delete, replace}
use nasdaq_order_book.Books.Memory.{
  Ptr, Order, OrderPool, Storage, fresh, next_place, acquire_order, release_order, link_next,
  link_prev, unlink,
}

pub record FastPriceLevel : Type 0 where
  pub quantity : ℕ
  pub order_count : ℕ
  pub active : ℕ
  pub first_order : Ptr

abbrev pub zero_level : FastPriceLevel
zero_level = record { quantity = 0; order_count = 0; active = 0; first_order = none }

abbrev pub min_price : ℕ
min_price = 40000

abbrev pub max_price : ℕ
max_price = 60000

abbrev pub price_levels : ℕ
price_levels = 20001

abbrev pub Levels : Type 0
Levels = ℕ → FastPriceLevel

-- The hash table is a map from identifiers to places in the pool.
pub record OptimizedBook : Type 0 where
  pub bid_levels : Levels
  pub ask_levels : Levels
  pub order_hash : List (ℕ × ℕ)

-- The constructor.
unfoldable pub new : OptimizedBook
new = record { bid_levels = λ i. zero_level; ask_levels = λ i. zero_level; order_hash = [] }

-- A book and the pool it works on.
pub record State : Type 0 where
  pub book : OptimizedBook
  pub pool : OrderPool

-- `FastHashTable`
unfoldable pub find : State → ℕ → Ptr
find s order_id = lookup order_id s.book.order_hash

unfoldable pub insert_order : State → ℕ → ℕ → State
insert_order s order_id a = record s {
  book = record (s.book) { order_hash = insert order_id a s.book.order_hash };
}

unfoldable pub remove : State → ℕ → State
remove s order_id = record s {
  book = record (s.book) { order_hash = erase order_id s.book.order_hash };
}

unfoldable pub price_to_index : ℕ → ℕ
price_to_index price = if ltb price min_price || ltb max_price price then 0 else price - min_price

-- `is_buy ? bid_levels_ : ask_levels_`
unfoldable pub levels : State → Bool → Levels
levels s is_buy = if is_buy then s.book.bid_levels else s.book.ask_levels

-- A write to `levels[i]`.
unfoldable pub set_level : State → Bool → ℕ → FastPriceLevel → State
set_level s is_buy i l = record s {
  book = record (s.book) {
    bid_levels = if is_buy then update s.book.bid_levels i l else s.book.bid_levels;
    ask_levels = if is_buy then s.book.ask_levels else update s.book.ask_levels i l;
  };
}

unfoldable pub set_storage : State → Storage → State
set_storage s m = record s { pool = record (s.pool) { storage = m } }

-- A write to `*order`.
unfoldable pub set_order : State → ℕ → Order → State
unfolding set_storage
set_order s a o = set_storage s (update s.pool.storage a o)

-- The order becomes the first of its level.
unfoldable pub push_front : Storage → ℕ → Ptr → Storage
unfolding link_next link_prev
push_front m a first =
    link_prev (link_prev (link_next m (some a) first) first (some a)) (some a) none

unfoldable pub add_to_level_fast : State → ℕ → Bool → ℕ → State
unfolding push_front
add_to_level_fast s a is_buy i =
    let l = levels s is_buy i in
    set_level (set_storage s (push_front s.pool.storage a l.first_order)) is_buy i (record {
      quantity = add32 l.quantity (s.pool.storage a).quantity;
      order_count = add16 l.order_count 1;
      active = 1;
      first_order = some a;
    })

-- `level.first_order` after the order with these links is gone.
unfoldable pub first_without : Ptr → Ptr → Ptr → Ptr
first_without none next first = next
first_without (some p) next first = first

unfoldable pub remove_from_level_fast : State → ℕ → Bool → ℕ → State
unfolding unlink first_without
remove_from_level_fast s a is_buy i =
    let o = s.pool.storage a in
    let l = levels s is_buy i in
    let left = sub32 l.quantity o.quantity in
    set_level (set_storage s (unlink s.pool.storage a)) is_buy i (record {
      quantity = left;
      order_count = sub16 l.order_count 1;
      active = if left == 0 then 0 else l.active;
      first_order = if left == 0 then none else first_without o.prev o.next l.first_order;
    })

-- `addOrder` from the allocation on.
unfoldable pub place : State → ℕ → ℕ → ℕ → ℕ → State
unfolding next_place acquire_order
place s id side quantity price =
    let a = (acquire_order s.pool).0 in
    let s₁ =
      set_order (record s { pool = (acquire_order s.pool).1 }) a (fresh id side quantity price) in
    insert_order (add_to_level_fast s₁ a (side == b'B') (price_to_index price)) id a

unfoldable pub add_order : State → ℕ → ℕ → ℕ → ℕ → State
add_order s id side quantity price = elim (find s id) [
  | some _ ↦ s
  | none ↦ place s id side quantity price
]

-- `deleteOrder` at the order that was found.
unfoldable pub delete_at : State → ℕ → ℕ → State
unfolding release_order
delete_at s id a =
    let o = s.pool.storage a in
    let s₁ = remove (remove_from_level_fast s a (o.side == b'B') (price_to_index o.price)) id in
    record s₁ { pool = release_order a s₁.pool }

unfoldable pub delete_order : State → ℕ → State
delete_order s id = elim (find s id) [ none ↦ s | some a ↦ delete_at s id a ]

-- The two subtractions of `executeOrder`.
unfoldable pub take_from : State → ℕ → ℕ → State
take_from s a removed =
    let o = s.pool.storage a in
    let is_buy = o.side == b'B' in
    let i = price_to_index o.price in
    let l = levels s is_buy i in
    set_order (set_level s is_buy i (record l { quantity = sub32 l.quantity removed })) a
      (record o { quantity = o.quantity - removed })

-- An order with nothing left is deleted.
unfoldable pub settle : State → ℕ → ℕ → State
settle s id a = if (s.pool.storage a).quantity == 0 then delete_order s id else s

unfoldable pub execute_at : State → ℕ → ℕ → ℕ → State
execute_at s id a executed_qty =
    let o = s.pool.storage a in
    let removed = if ltb executed_qty o.quantity then executed_qty else o.quantity in
    settle (take_from s a removed) id a

unfoldable pub execute_order : State → ℕ → ℕ → State
execute_order s id executed_qty = elim (find s id) [
  | none ↦ s
  | some a ↦ execute_at s id a executed_qty
]

-- `replaceOrder` to another price: the order is moved to the front of the other level.
unfoldable pub move : State → ℕ → ℕ → ℕ → ℕ → ℕ → State
move s a old_id new_id new_qty new_price =
    let o = s.pool.storage a in
    let is_buy = o.side == b'B' in
    let s₁ = remove_from_level_fast s a is_buy (price_to_index o.price) in
    let s₂ = set_order s₁ a (fresh new_id o.side new_qty new_price) in
    let s₃ = add_to_level_fast s₂ a is_buy (price_to_index new_price) in
    insert_order (remove s₃ old_id) new_id a

-- `replaceOrder` at the same price: the order keeps its place.
unfoldable pub resize : State → ℕ → ℕ → ℕ → ℕ → ℕ → State
resize s a old_id new_id new_qty new_price =
    let o = s.pool.storage a in
    let is_buy = o.side == b'B' in
    let i = price_to_index new_price in
    let l = levels s is_buy i in
    let s₁ =
      set_level s is_buy i (record l { quantity = add32 (sub32 l.quantity o.quantity) new_qty }) in
    let s₂ = set_order s₁ a (record o { id = new_id; quantity = new_qty }) in
    insert_order (remove s₂ old_id) new_id a

-- `replaceOrder` at the order that was found.
unfoldable pub replace_at : State → ℕ → ℕ → ℕ → ℕ → ℕ → State
replace_at s a old_id new_id new_qty new_price =
    if not ((s.pool.storage a).price == new_price)
    then move s a old_id new_id new_qty new_price
    else resize s a old_id new_id new_qty new_price

unfoldable pub replace_order : State → ℕ → ℕ → ℕ → ℕ → State
replace_order s old_id new_id new_qty new_price = elim (find s old_id) [
  | none ↦ s
  | some a ↦ replace_at s a old_id new_id new_qty new_price
]

unfoldable pub is_quoted : FastPriceLevel → Bool
is_quoted l = not (l.active == 0) && ltb 0 l.quantity

-- The loop of `getBestBid` over the levels from `n` down; it ends before level 0.
unfoldable pub best_bid_loop : ℕ → Levels → ℕ
best_bid_loop zero ls = 0
best_bid_loop (suc n) ls =
    let rest = best_bid_loop n ls in if is_quoted (ls (suc n)) then suc n + min_price else rest

unfoldable pub get_best_bid : OptimizedBook → ℕ
unfolding best_bid_loop
get_best_bid b = best_bid_loop (price_levels - 1) b.bid_levels

-- The loop of `getBestAsk` with `n` levels left, from level `i` up.
unfoldable pub best_ask_loop : ℕ → Levels → ℕ → ℕ
best_ask_loop zero ls i = 0
best_ask_loop (suc n) ls i =
    let rest = best_ask_loop n ls (i + 1) in if is_quoted (ls i) then i + min_price else rest

unfoldable pub get_best_ask : OptimizedBook → ℕ
unfolding best_ask_loop
get_best_ask b = best_ask_loop price_levels b.ask_levels 0

-- `core::apply` of include/core/apply.hpp on an `OptimizedOrderBook`.
unfoldable pub apply : ItchEvent → State → State
apply (add id side q p sym) s = add_order s id side q p
apply (exec id q) s = execute_order s id q
apply (cancel id q) s = execute_order s id q
apply (delete id) s = delete_order s id
apply (replace old_id new_id q p sym) s = replace_order s old_id new_id q p

-- What a run of the book unfolds.
unfoldable pub steps : Unit {0}
unfolding next_place acquire_order release_order link_next link_prev unlink find insert_order remove
    price_to_index levels set_level set_storage set_order push_front add_to_level_fast first_without
    remove_from_level_fast fresh place add_order delete_at delete_order take_from settle execute_at
    execute_order move resize replace_at replace_order is_quoted best_bid_loop best_ask_loop apply
    lookup insert erase
steps = tt
