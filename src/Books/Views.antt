-- ===== src/Books/Views.antt =====
-- `OrderBook` and `OptimizedOrderBook` after a feed: what each shows.
use nasdaq_order_book.Base.{ℕ, ◌≤◌, ◌≡◌, ◌∙◌, sym, arith, none, List, [], length}
use nasdaq_order_book.Base.Assoc.{lookup}
use nasdaq_order_book.Core.Event.{ItchEvent}
use nasdaq_order_book.Ultra.Spec.{Orders}
use nasdaq_order_book.Books.Memory.{Storage, OrderPool, pool_size}
use nasdaq_order_book.Books.Spec.{spec_all}
use nasdaq_order_book.Books.Index.{IsIndex}
use nasdaq_order_book.Books.Index.Step.{view_of}
use nasdaq_order_book.Books.Index.Feed.{feed, feed-refines}
use nasdaq_order_book.Books.Fast
use nasdaq_order_book.Books.Fast.Refine as FastRefine
use nasdaq_order_book.Books.Plain
use nasdaq_order_book.Books.Plain.Refine as PlainRefine

-- A pool that has handed out nothing, over what its memory holds.
abbrev pub fresh_pool : Storage → OrderPool
fresh_pool m = record { storage = m; index = 0 }

abbrev pub no_orders : Orders
no_orders j = none

-- What a new `OptimizedOrderBook` shows after a feed.
unfoldable pub optimized_view : Storage → List ItchEvent → Orders
unfolding Fast.new FastRefine.optimized_book
optimized_view m es = view_of (
    FastRefine.table
      (feed FastRefine.optimized_book es (record { book = Fast.new; pool = fresh_pool m })))

-- What a new `OrderBook` shows after a feed.
unfoldable pub plain_view : Storage → List ItchEvent → Orders
unfolding Plain.new PlainRefine.plain_book
plain_view m es = view_of (
    PlainRefine.table
      (feed PlainRefine.plain_book es (record { book = Plain.new; pool = fresh_pool m })))

new-IsIndex : (m : Storage) → IsIndex [] m 0
unfolding lookup
new-IsIndex m j a h = ground arith

-- After a feed of at most 1,000,000 events, which the pool has room for, a new `OptimizedOrderBook`
-- finds under each identifier the order that the feed means: its side and price, and what is left of
-- its quantity; and an order that is executed in full or deleted is found no more.
pub optimized_view-refines :
    (m : Storage) (es : List ItchEvent)
    → length es ≤ pool_size
    → (j : ℕ) → optimized_view m es j ≡ spec_all es no_orders j
unfolding optimized_view FastRefine.table FastRefine.optimized_book Fast.new lookup
optimized_view-refines m es room j =
    feed-refines FastRefine.optimized_book es (record { book = Fast.new; pool = fresh_pool m })
      (new-IsIndex m) (omega (arith, room)) j

plain_view-refines :
    (m : Storage) (es : List ItchEvent)
    → length es ≤ pool_size
    → (j : ℕ) → plain_view m es j ≡ spec_all es no_orders j
unfolding plain_view PlainRefine.table PlainRefine.plain_book Plain.new lookup
plain_view-refines m es room j =
    feed-refines PlainRefine.plain_book es (record { book = Plain.new; pool = fresh_pool m })
      (new-IsIndex m) (omega (arith, room)) j

-- An `OrderBook` and an `OptimizedOrderBook` that start empty and are fed the same events, at most
-- 1,000,000, each with a pool of its own that has handed out nothing, show the same order, or none,
-- under every identifier.
pub plain_view-optimized_view :
    (m n : Storage) (es : List ItchEvent)
    → length es ≤ pool_size
    → (j : ℕ) → plain_view m es j ≡ optimized_view n es j
plain_view-optimized_view m n es room j =
    plain_view-refines m es room j ∙ sym (optimized_view-refines n es room j)
