-- ===== src/Books/Plain.antt =====
-- `OrderBook` of include/order_book.hpp and src/order_book.cpp, with the pool it takes its orders
-- from. The levels of a side are an association list from prices.
pub mod Leaving
pub mod Priority
pub mod Queue
pub mod Refine
use nasdaq_order_book.Base.{
  ℕ, ◌-◌, Bool, true, false, Option, none, some, List, [], ◌∷◌, ltb, ◌==◌, not, if◌then◌else◌,
  update, add32, sub32,
}
use nasdaq_order_book.Base.Assoc.{lookup, insert, erase}
use nasdaq_order_book.Core.Event.{ItchEvent, add, exec, cancel, delete, replace}
use nasdaq_order_book.Books.Memory.{
  Ptr, Order, OrderPool, Storage, fresh, next_place, acquire_order, release_order, link_next,
  link_prev, unlink,
}

pub record PriceLevel : Type 0 where
  pub quantity : ℕ
  pub head : Ptr
  pub tail : Ptr

abbrev pub empty_level : PriceLevel
empty_level = record { quantity = 0; head = none; tail = none }

abbrev pub Levels : Type 0
Levels = List (ℕ × PriceLevel)

pub record OrderBook : Type 0 where
  pub bids : Levels
  pub asks : Levels
  pub orders : List (ℕ × ℕ)

unfoldable pub new : OrderBook
new = record { bids = []; asks = []; orders = [] }

-- A book and the pool it works on.
pub record State : Type 0 where
  pub book : OrderBook
  pub pool : OrderPool

unfoldable pub levels : State → Bool → Levels
levels s is_buy = if is_buy then s.book.bids else s.book.asks

unfoldable pub set_levels : State → Bool → Levels → State
set_levels s is_buy ls = record s {
  book = record (s.book) {
    bids = if is_buy then ls else s.book.bids;
    asks = if is_buy then s.book.asks else ls;
  };
}

unfoldable pub set_storage : State → Storage → State
set_storage s m = record s { pool = record (s.pool) { storage = m } }

-- A write to `*order`.
unfoldable pub set_order : State → ℕ → Order → State
unfolding set_storage
set_order s a o = set_storage s (update s.pool.storage a o)

unfoldable pub set_entries : State → List (ℕ × ℕ) → State
set_entries s es = record s { book = record (s.book) { orders = es } }

-- `levels[price]`, which makes an empty level where there is none.
unfoldable pub level_or_new : Option PriceLevel → PriceLevel
level_or_new none = empty_level
level_or_new (some l) = l

-- The order becomes the last of its level: the links, then the level.
unfoldable pub append_links : Storage → ℕ → PriceLevel → Storage
unfolding link_next link_prev
append_links m a l = elim l.head [
  | none ↦ m
  | some _ ↦ link_prev (link_next m l.tail (some a)) (some a) l.tail
]

unfoldable pub append : ℕ → ℕ → PriceLevel → PriceLevel
append a quantity l = record {
  quantity = add32 l.quantity quantity;
  head = elim l.head [ none ↦ some a | some h ↦ some h ];
  tail = some a;
}

-- The level of the order, where there is one.
unfoldable pub level_of : State → ℕ → Option PriceLevel
level_of s a = let o = s.pool.storage a in lookup o.price (levels s (o.side == b'B'))

unfoldable pub add_to_level : State → ℕ → State
unfolding append_links append level_or_new level_of
add_to_level s a =
    let o = s.pool.storage a in
    let is_buy = o.side == b'B' in
    let l = level_or_new (level_of s a) in
    set_levels (set_storage s (append_links s.pool.storage a l)) is_buy
      (insert o.price (append a o.quantity l) (levels s is_buy))

unfoldable pub is_at : Ptr → ℕ → Bool
is_at none a = false
is_at (some b) a = b == a

-- The level without the order `a`; the links of `a` are read after its neighbours are joined.
unfoldable pub detach : Storage → ℕ → PriceLevel → PriceLevel
unfolding is_at
detach m a l = record {
  quantity = sub32 l.quantity (m a).quantity;
  head = if is_at l.head a then (m a).next else l.head;
  tail = if is_at l.tail a then (m a).prev else l.tail;
}

-- `remove_from_level`, given the level that was found.
unfoldable pub remove_from : State → ℕ → Option PriceLevel → State
unfolding unlink detach
remove_from s a none = s
remove_from s a (some l) =
    let o = s.pool.storage a in
    let is_buy = o.side == b'B' in
    let m = unlink s.pool.storage a in
    let l₁ = detach m a l in
    set_levels (set_storage s m) is_buy (
      if l₁.quantity == 0
      then erase o.price (levels s is_buy)
      else insert o.price l₁ (levels s is_buy))

unfoldable pub remove_from_level : State → ℕ → State
remove_from_level s a = remove_from s a (level_of s a)

unfoldable pub change_found : State → Bool → ℕ → (ℕ → ℕ) → Option PriceLevel → State
change_found s is_buy price f none = s
change_found s is_buy price f (some l) =
    set_levels s is_buy (insert price (record l { quantity = f l.quantity }) (levels s is_buy))

-- `if (levels.count(price)) levels.at(price).quantity = f(levels.at(price).quantity)`
unfoldable pub change_quantity : State → Bool → ℕ → (ℕ → ℕ) → State
change_quantity s is_buy price f = change_found s is_buy price f (lookup price (levels s is_buy))

-- `addOrder` from the allocation on.
unfoldable pub place : State → ℕ → ℕ → ℕ → ℕ → State
unfolding next_place acquire_order
place s id side quantity price =
    let a = (acquire_order s.pool).0 in
    let s₁ =
      set_order (record s { pool = (acquire_order s.pool).1 }) a (fresh id side quantity price) in
    add_to_level (set_entries s₁ (insert id a s.book.orders)) a

unfoldable pub add_order : State → ℕ → ℕ → ℕ → ℕ → State
add_order s id side quantity price = elim (lookup id s.book.orders) [
  | some _ ↦ s
  | none ↦ place s id side quantity price
]

-- `deleteOrder` at the order that was found.
unfoldable pub delete_at : State → ℕ → ℕ → State
unfolding release_order
delete_at s id a =
    let s₁ = remove_from_level s a in
    set_entries (record s₁ { pool = release_order a s₁.pool }) (erase id s₁.book.orders)

unfoldable pub delete_order : State → ℕ → State
delete_order s id = elim (lookup id s.book.orders) [ none ↦ s | some a ↦ delete_at s id a ]

-- The two subtractions of `executeOrder`.
unfoldable pub take_from : State → ℕ → ℕ → State
take_from s a removed =
    let o = s.pool.storage a in
    set_order (change_quantity s (o.side == b'B') o.price λ q. sub32 q removed) a
      (record o { quantity = o.quantity - removed })

-- An order with nothing left is deleted.
unfoldable pub settle : State → ℕ → ℕ → State
settle s id a = if (s.pool.storage a).quantity == 0 then delete_order s id else s

unfoldable pub execute_at : State → ℕ → ℕ → ℕ → State
execute_at s id a executed_qty =
    let o = s.pool.storage a in
    let removed = if ltb executed_qty o.quantity then executed_qty else o.quantity in
    settle (take_from s a removed) id a

unfoldable pub execute_order : State → ℕ → ℕ → State
execute_order s id executed_qty = elim (lookup id s.book.orders) [
  | none ↦ s
  | some a ↦ execute_at s id a executed_qty
]

-- `replaceOrder` to another price: the order is moved to the end of the other level.
unfoldable pub move : State → ℕ → ℕ → ℕ → ℕ → ℕ → State
move s a old_id new_id new_qty new_price =
    let o = s.pool.storage a in
    let s₁ = remove_from_level s a in
    let s₂ = set_order s₁ a (fresh new_id o.side new_qty new_price) in
    add_to_level (set_entries s₂ (insert new_id a (erase old_id s₂.book.orders))) a

-- `replaceOrder` at the same price: the order keeps its place.
unfoldable pub resize : State → ℕ → ℕ → ℕ → ℕ → ℕ → State
resize s a old_id new_id new_qty new_price =
    let o = s.pool.storage a in
    let s₁ = change_quantity s (o.side == b'B') new_price λ q. add32 (sub32 q o.quantity) new_qty in
    let s₂ = set_order s₁ a (record o { id = new_id; quantity = new_qty }) in
    set_entries s₂ (insert new_id a (erase old_id s₂.book.orders))

-- `replaceOrder` at the order that was found.
unfoldable pub replace_at : State → ℕ → ℕ → ℕ → ℕ → ℕ → State
replace_at s a old_id new_id new_qty new_price =
    if not ((s.pool.storage a).price == new_price)
    then move s a old_id new_id new_qty new_price
    else resize s a old_id new_id new_qty new_price

unfoldable pub replace_order : State → ℕ → ℕ → ℕ → ℕ → State
replace_order s old_id new_id new_qty new_price = elim (lookup old_id s.book.orders) [
  | none ↦ s
  | some a ↦ replace_at s a old_id new_id new_qty new_price
]

-- The call for an event. The source has no `core::apply` for an `OrderBook`; this one makes the calls
-- that the one for an `OptimizedOrderBook` makes.
unfoldable pub apply : ItchEvent → State → State
apply (add id side q p sym) s = add_order s id side q p
apply (exec id q) s = execute_order s id q
apply (cancel id q) s = execute_order s id q
apply (delete id) s = delete_order s id
apply (replace old_id new_id q p sym) s = replace_order s old_id new_id q p

-- What a run of the book unfolds.
unfoldable pub steps : Unit {0}
unfolding next_place acquire_order release_order fresh link_next link_prev unlink levels set_levels
    set_storage set_order set_entries level_or_new append_links append level_of add_to_level is_at
    detach remove_from remove_from_level change_found change_quantity place add_order delete_at
    delete_order take_from settle execute_at execute_order move resize replace_at replace_order
    apply lookup insert erase new
steps = tt
