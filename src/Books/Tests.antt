-- ===== src/Books/Tests.antt =====
-- Runs of `OrderBook` and `OptimizedOrderBook`, and their theorems at a small feed.
use nasdaq_order_book.Base.{◌≡◌, refl, true, none, some, List, [], ◌∷◌, arith}
use nasdaq_order_book.Core.Event.{ItchEvent, add, exec, cancel, replace}
use nasdaq_order_book.Books.Memory.{Order, Storage}
use nasdaq_order_book.Books.Spec.{spec_all}
use nasdaq_order_book.Books.Fast
use nasdaq_order_book.Books.Fast.{get_best_bid, get_best_ask}
use nasdaq_order_book.Books.Plain
use nasdaq_order_book.Books.Plain.{State, add_order, delete_order, execute_order}
use nasdaq_order_book.Books.Plain.Priority.{Waits, add_order-Waits}
use nasdaq_order_book.Books.Plain.Leaving.{delete_order-Waits}
use nasdaq_order_book.Books.Views.{
  fresh_pool, no_orders, optimized_view, plain_view, optimized_view-refines,
  plain_view-optimized_view,
}

abbrev blank : Order
blank = record { id = 0; side = 0; quantity = 0; price = 0; next = none; prev = none }

abbrev zeroed : Storage
zeroed a = blank

abbrev used : Storage
used a = record blank { id = 5; quantity = 9 }

abbrev feed : List ItchEvent
feed =
    add 7 b'B' 100 50000 1
    ∷ add 9 b'S' 60 50100 1
    ∷ exec 7 30
    ∷ replace 9 11 80 50200 0
    ∷ cancel 11 5
    ∷ add 13 b'B' 10 50000 1
    ∷ exec 13 25
    ∷ []

optimized_view-refines_example : optimized_view zeroed feed 11 ≡ spec_all feed no_orders 11
optimized_view-refines_example = optimized_view-refines zeroed feed (omega arith) 11

plain_view-optimized_view_example : plain_view zeroed feed 7 ≡ optimized_view used feed 7
plain_view-optimized_view_example = plain_view-optimized_view zeroed used feed (omega arith) 7

what_is_left :
    (spec_all feed no_orders 13 ≡ none)
    × (spec_all feed no_orders 7 ≡ some (record { side = b'B'; quantity = 70; price = 50000 }))
unfolding spec_all
what_is_left = (refl, refl)

abbrev start : State
start = record { book = Plain.new; pool = fresh_pool zeroed }

abbrev two_orders : State
two_orders = add_order (add_order start 7 b'B' 100 50000) 9 b'B' 60 50000

abbrev three_orders : State
three_orders = add_order two_orders 11 b'B' 5 50000

nobody-Waits : Waits start true 50000 []
unfolding Plain.steps
nobody-Waits = record { head = refl; tail = refl; distinct = tt; linked = tt; total = refl }

one-Waits : Waits (add_order start 7 b'B' 100 50000) true 50000 (0 ∷ [])
unfolding Plain.steps
one-Waits = add_order-Waits start 7 b'B' 100 50000 [] refl (omega arith) refl nobody-Waits

add_order-Waits_example : Waits two_orders true 50000 (0 ∷ 1 ∷ [])
unfolding Plain.steps
add_order-Waits_example =
    add_order-Waits (add_order start 7 b'B' 100 50000) 9 b'B' 60 50000 (0 ∷ []) refl (omega arith)
      refl one-Waits

delete_order-Waits_example : Waits (delete_order two_orders 7) true 50000 (1 ∷ [])
unfolding Plain.steps
delete_order-Waits_example =
    delete_order-Waits two_orders 7 0 [] (1 ∷ []) refl (omega arith)
      (record { positive = (omega arith, tt); fits = omega arith }) add_order-Waits_example

-- A bid of $4.00 is not among the best bids, an ask of $4.00 is.
abbrev at_four_dollars : Fast.State
at_four_dollars =
    Fast.add_order
      (Fast.add_order (record { book = Fast.new; pool = fresh_pool zeroed }) 7 b'B' 100 40000) 9
      b'S' 100 40000

lowest_bid :
    (Fast.best_bid_loop 5 at_four_dollars.book.bid_levels ≡ 0)
    × (Fast.best_ask_loop 5 at_four_dollars.book.ask_levels 0 ≡ 40000)
unfolding Fast.steps Fast.new
lowest_bid = (refl, refl)
