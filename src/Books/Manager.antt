-- ===== src/Books/Manager.antt =====
-- `OrderBookManager` of include/order_book.hpp: a book of each kind for a symbol, made on demand.
use nasdaq_order_book.Base.{ℕ, Option, none, some, List, []}
use nasdaq_order_book.Base.Assoc.{lookup, insert}
use nasdaq_order_book.Books.Fast
use nasdaq_order_book.Books.Fast.{OptimizedBook}
use nasdaq_order_book.Books.Plain
use nasdaq_order_book.Books.Plain.{OrderBook}

pub record OrderBookManager : Type 0 where
  pub books : List (ℕ × OrderBook)
  pub optimized_books : List (ℕ × OptimizedBook)

abbrev pub no_books : OrderBookManager
no_books = record { books = []; optimized_books = [] }

unfoldable pub or_new : Option OrderBook → OrderBook
unfolding Plain.new
or_new none = Plain.new
or_new (some b) = b

unfoldable pub or_new_optimized : Option OptimizedBook → OptimizedBook
unfolding Fast.new
or_new_optimized none = Fast.new
or_new_optimized (some b) = b

-- The book that `getOrCreateOrderBook` answers, and the manager with it.
unfoldable pub get_or_create_order_book : OrderBookManager → ℕ → OrderBook × OrderBookManager
unfolding or_new
get_or_create_order_book m symbol =
    let b = or_new (lookup symbol m.books) in (b, record m { books = insert symbol b m.books })

unfoldable pub get_or_create_optimized_order_book :
    OrderBookManager → ℕ → OptimizedBook × OrderBookManager
unfolding or_new_optimized
get_or_create_optimized_order_book m symbol =
    let b = or_new_optimized (lookup symbol m.optimized_books) in
    (b, record m { optimized_books = insert symbol b m.optimized_books })
