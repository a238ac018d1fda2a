-- ===== src/Ultra/Tests.antt =====
-- Runs of `UltraOrderBook`, and its theorems at a small feed.
mod Crowded
use nasdaq_order_book.Base.{
  ℕ, ◌+◌, ◌^◌, ◌≡◌, ◌≢◌, ◌<◌, ◌≤◌, ◌⊎◌, ◌↔◌, refl, inl, inr, Bool, true, false, Option, none, some,
  List, [], ◌∷◌, arith, if◌then◌else◌, ◌==◌, ltb, u32_mod,
}
use nasdaq_order_book.Core.Event.{ItchEvent, add, exec, cancel, delete, replace}
use nasdaq_order_book.Ultra.Order.{
  UltraOrder, zero_level, get_id, get_side, set_id_side, set_id_side_lem,
}
use nasdaq_order_book.Ultra.Table.{ultra_hash, probe, ultra_find}
use nasdaq_order_book.Ultra.Table.Valid.{IsLive}
use nasdaq_order_book.Ultra.Spec.{OrderView, Orders}
use nasdaq_order_book.Ultra.Apply.{apply, apply_all, feed-IsBook, AllNarrow}
use nasdaq_order_book.Ultra.Book
use nasdaq_order_book.Ultra.Book.{
  UltraBook, Levels, new, uninitialised, steps, ultra_price_levels, reset_pool, ultra_execute_order,
  ultra_delete_order, ultra_add_order, ultra_get_best_bid, ultra_get_best_ask, best_bid_loop,
  ultra_price_to_index, levels,
}
use nasdaq_order_book.Ultra.Book.Totals.{IsBook, totals_of}
use nasdaq_order_book.Ultra.Book.Lifecycle.{view}
use nasdaq_order_book.Ultra.Book.Best.{
  IsBestBid, IsBestAsk, ultra_get_best_bid-IsBestBid, ultra_get_best_ask-IsBestAsk,
}
use nasdaq_order_book.Ultra.Book.Faults.{
  price_to_index_lem, reset_pool_drops_adds, execute_delete_counts_twice,
}
use nasdaq_order_book.Ultra.Book.Renewal.{CanAdd}
use nasdaq_order_book.Ultra.Refine.{Admits, AdmitsAll, spec_all, feed_refines}

abbrev blank : UltraOrder
blank = record { id_and_side = 0; quantity = 0; price = 0; next = none }

abbrev garbage : ℕ → UltraOrder
garbage a = blank

abbrev feed : List ItchEvent
feed =
    add 7 b'B' 100 50000 1
    ∷ add 9 b'S' 60 50100 1
    ∷ exec 7 30
    ∷ replace 9 11 80 50200 0
    ∷ cancel 11 5
    ∷ delete 7
    ∷ []

-- The memory of the levels before the book is made.
abbrev left : Levels
left i = record { total_quantity = i + 5; order_count = 1; first_order = some 3 }

abbrev dirty : Levels
dirty i = if ltb i 20001 then left i else zero_level

abbrev empty_book : UltraBook
empty_book = uninitialised dirty dirty garbage 1000

abbrev book : UltraBook
book = apply_all feed empty_book

what_is_left :
    (view book 7 ≡ none)
    × (view book 11 ≡ some (record { side = b'S'; quantity = 75; price = 50200 }))
unfolding apply_all view uninitialised new steps
what_is_left = (refl, refl)

can_add :
    {b : UltraBook} {id : ℕ}
    → b.order_pool.stack_top < b.order_pool.capacity
    → (b.order_hash (probe (ultra_hash id) 0)).order_id ≡ 0
    → CanAdd b id
can_add top free = record {
  in_pool = top;
  in_table = record { at = 0; within = omega arith; free = inl free };
}

feed-admitted : AdmitsAll empty_book feed
unfolding apply apply_all uninitialised new steps
feed-admitted = (
  ((omega arith, omega arith), can_add (omega arith) refl),
  (
    ((omega arith, omega arith), can_add (omega arith) refl),
    (
      (omega arith, omega arith),
      (
        ((omega arith, omega arith), (omega arith, omega arith), λ a e. can_add (omega arith) refl),
        ((omega arith, omega arith), ((omega arith, omega arith), tt)),
      ),
    ),
  ),
)

feed_refines_example : view book 11 ≡ spec_all feed (λ _. none) 11
feed_refines_example =
    feed_refines dirty dirty garbage 1000 feed 11 feed-admitted (omega arith, omega arith)

dirty-words : (is_buy : Bool) (i : ℕ) → totals_of dirty dirty is_buy i < u32_mod
dirty-words true i = ground arith
dirty-words false i = ground arith

feed-IsBook_example : IsBook (totals_of dirty dirty) book
feed-IsBook_example = feed-IsBook dirty dirty garbage 1000 feed dirty-words (omega arith)

abbrev one_bid : UltraBook
one_bid = ultra_add_order (new garbage 1000) 7 b'B' 100 50000

ultra_get_best_bid-IsBestBid_example :
    IsBestBid one_bid.bid_levels ultra_price_levels (ultra_get_best_bid one_bid)
ultra_get_best_bid-IsBestBid_example = ultra_get_best_bid-IsBestBid one_bid

ultra_get_best_ask-IsBestAsk_example :
    IsBestAsk one_bid.ask_levels 0 ultra_price_levels (ultra_get_best_ask one_bid)
ultra_get_best_ask-IsBestAsk_example = ultra_get_best_ask-IsBestAsk one_bid

one_bid_found : ultra_find one_bid.order_hash 7 ≡ some 0
unfolding new steps
one_bid_found = refl

reset_pool_drops_adds_example :
    ultra_add_order (reset_pool one_bid) 7 b'B' 100 50000 ≡ reset_pool one_bid
reset_pool_drops_adds_example = reset_pool_drops_adds one_bid 7 0 b'B' 100 50000 one_bid_found

-- The count of the level wraps to 65535.
execute_delete_counts_twice_example :
    ((ultra_delete_order (ultra_execute_order one_bid 7 100) 7).bid_levels 10000).order_count
    ≡ 65535
unfolding new steps
execute_delete_counts_twice_example = execute_delete_counts_twice one_bid 7 0 100 refl (omega arith)
