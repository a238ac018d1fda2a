-- ===== src/Matching/Engine.antt =====
-- `MatchingEngine` of src/matching/matching_engine.cpp: its state and the operations on orders and
-- symbols. `garbage` and `capacity` are the memory and the size of the pool of a new book.
pub mod Active
pub mod Outcomes
use nasdaq_order_book.Base.{
  ℕ, ◌+◌, Bool, true, false, not, ◌&&◌, ◌||◌, Option, none, some, List, [], ◌∷◌, ◌++◌, ltb, ◌==◌,
  if◌then◌else◌,
}
use nasdaq_order_book.Base.Assoc.{lookup, insert, erase, keys}
use nasdaq_order_book.Ultra.Order.{UltraOrder}
use nasdaq_order_book.Ultra.Book
use nasdaq_order_book.Ultra.Book.{
  UltraBook, ultra_add_order, ultra_delete_order, ultra_get_best_ask, ultra_get_best_bid,
}
use nasdaq_order_book.Matching.Types.{
  Side, OrderType, market, limit, TimeInForce, day, ioc, fok, OrderStatus, new, partially_filled,
  filled, canceled, rejected, Order, Fill, MatchResult, rejection, side_char, remaining_quantity,
  is_fully_filled,
}
use nasdaq_order_book.Matching.Cross.{
  Crossing, attempt_cross, cross_result, cross_loop, goes_on, best_price, can_execute, trade,
  trade_quantity,
}

pub record Engine : Type 0 where
  pub order_books : List (ℕ × UltraBook)
  pub active_orders : List (ℕ × Order)
  pub next_trade_id : ℕ
  pub has_callback : Bool
  pub notified : List Fill

unfoldable pub init : Bool → Engine
init has_callback = record {
  order_books = [];
  active_orders = [];
  next_trade_id = 1;
  has_callback = has_callback;
  notified = [];
}

-- The state as the helpers of `process_order` change it: the order is a reference into
-- `active_orders_`, and the book one into `order_books_`; `process_order` writes both back.
pub record Processed : Type 0 where
  pub crossing : Crossing
  pub result : MatchResult

abbrev is_fok : TimeInForce → Bool
is_fok fok = true
is_fok _ = false

abbrev may_rest : TimeInForce → Bool
may_rest day = true
may_rest _ = false

-- `process_market_order` past the lookup of the book, which never fails.
unfoldable pub process_market_order : Bool → Order → UltraBook → ℕ → List Fill → Processed
process_market_order callback o book next_trade_id notified =
    let c = attempt_cross callback o book next_trade_id notified in
    record { crossing = c; result = cross_result c }

-- The remainder of a `DAY` order goes to the book.
unfoldable pub rest_order : Processed → Processed
rest_order r =
    let c = r.crossing in
    let o = c.order in
    if not (is_fully_filled o) && may_rest o.tif
    then record {
      crossing = record c {
        book = ultra_add_order c.book o.id (side_char o.side) (remaining_quantity o) o.price;
      };
      result = record (r.result) {
        final_status = if r.result.total_filled == 0 then new else partially_filled;
      };
    }
    else r

-- An `FOK` order that is not filled in full is cancelled.
unfoldable pub kill_order : Processed → Processed
kill_order r =
    let c = r.crossing in
    if is_fok c.order.tif && not (is_fully_filled c.order)
    then record {
      crossing = record c { order = record (c.order) { status = canceled } };
      result = record (r.result) { final_status = canceled };
    }
    else r

unfoldable pub process_limit_order : Bool → Order → UltraBook → ℕ → List Fill → Processed
process_limit_order callback o book next_trade_id notified =
    kill_order (rest_order (process_market_order callback o book next_trade_id notified))

unfoldable pub update_order_status : Order → Order
update_order_status o =
    if is_fully_filled o
    then record o { status = filled }
    else if ltb 0 o.filled_quantity
    then record o { status = partially_filled }
    else o

abbrev pub is_canceled : OrderStatus → Bool
is_canceled canceled = true
is_canceled _ = false

unfoldable pub route : OrderType → Bool → Order → UltraBook → ℕ → List Fill → Processed
route market callback o book next_trade_id notified =
    process_market_order callback o book next_trade_id notified
route limit callback o book next_trade_id notified =
    process_limit_order callback o book next_trade_id notified

-- The order leaves `active_orders_` if it is filled in full or cancelled.
unfoldable pub settle : Order → List (ℕ × Order) → List (ℕ × Order)
settle o m = if is_fully_filled o || is_canceled o.status then erase o.id m else insert o.id o m

-- The identifiers of the active orders of a symbol.
unfoldable pub orders_of : ℕ → List (ℕ × Order) → List ℕ
orders_of symbol [] = []
orders_of symbol ((id, o) ∷ m) =
    if o.symbol == symbol then id ∷ orders_of symbol m else orders_of symbol m

module _ (garbage : ℕ → UltraOrder) (capacity : ℕ) where
  -- The book of a symbol, created if it is not there.
  unfoldable pub get_or_create_book : ℕ → List (ℕ × UltraBook) → UltraBook × List (ℕ × UltraBook)
  get_or_create_book symbol books = elim (lookup symbol books) [
    | some book ↦ (book, books)
    | none ↦ (Book.new garbage capacity, insert symbol (Book.new garbage capacity) books)
  ]

  unfoldable pub process_order : Engine → Order → MatchResult × Engine
  process_order e o =
      let (book, books) = get_or_create_book o.symbol e.order_books in
      let r = route o.type e.has_callback o book e.next_trade_id e.notified in
      let c = r.crossing in
      if o.quantity == 0 then (rejection, e) else (
        r.result,
        record e {
          order_books = insert o.symbol c.book books;
          active_orders = settle (update_order_status c.order) (insert o.id o e.active_orders);
          next_trade_id = c.next_trade_id;
          notified = c.notified;
        },
      )

  unfoldable pub cancel_order : Engine → ℕ → Bool × Engine
  cancel_order e order_id = elim (lookup order_id e.active_orders) [
    | none ↦ (false, e)
    | some o ↦
        let (book, books) = get_or_create_book o.symbol e.order_books in
        (
          true,
          record e {
            order_books = insert o.symbol (ultra_delete_order book order_id) books;
            active_orders = erase order_id e.active_orders;
          },
        )
  ]

  abbrev pub not_rejected : OrderStatus → Bool
  not_rejected rejected = false
  not_rejected _ = true

  unfoldable pub replace_order : Engine → ℕ → Order → Bool × Engine
  replace_order e old_id o =
      let (canceled_old, e₁) = cancel_order e old_id in
      let (result, e₂) = process_order e₁ o in
      if canceled_old then (not_rejected result.final_status, e₂) else (false, e₁)

  unfoldable pub add_symbol : Engine → ℕ → Engine
  add_symbol e symbol = elim (lookup symbol e.order_books) [
    | some _ ↦ e
    | none ↦ record e { order_books = insert symbol (Book.new garbage capacity) e.order_books }
  ]

  unfoldable pub cancel_all : List ℕ → Engine → Engine
  cancel_all [] e = e
  cancel_all (id ∷ ids) e = cancel_all ids (cancel_order e id).1

  unfoldable pub remove_symbol : Engine → ℕ → Engine
  remove_symbol e symbol =
      let e' = cancel_all (orders_of symbol e.active_orders) e in
      record e' { order_books = erase symbol e'.order_books }

unfoldable pub get_active_symbols : Engine → List ℕ
unfolding keys
get_active_symbols e = keys e.order_books

unfoldable pub get_order : Engine → ℕ → Option Order
get_order e order_id = lookup order_id e.active_orders

unfoldable pub orders_with : ℕ → List (ℕ × Order) → List Order
orders_with symbol [] = []
orders_with symbol ((id, o) ∷ m) =
    if o.symbol == symbol then o ∷ orders_with symbol m else orders_with symbol m

unfoldable pub get_orders_for_symbol : Engine → ℕ → List Order
unfolding orders_with
get_orders_for_symbol e symbol = orders_with symbol e.active_orders

-- What a run of the engine unfolds.
unfoldable pub steps : Unit {0}
unfolding Book.steps Book.new lookup insert erase process_market_order rest_order kill_order
    process_limit_order route settle update_order_status get_or_create_book process_order
    cancel_order replace_order add_symbol orders_of cancel_all remove_symbol init attempt_cross
    cross_result is_fully_filled cross_loop goes_on best_price ultra_get_best_ask ultra_get_best_bid
    remaining_quantity can_execute trade trade_quantity
steps = tt
