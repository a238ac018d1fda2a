-- ===== src/Matching/Cross.antt =====
-- `MatchingEngine::attempt_cross` and `create_fill` of src/matching/matching_engine.cpp. The loop
-- runs on fuel; the state that it changes is a record.
pub mod Fills
pub mod Phantom
use nasdaq_order_book.Base.{
  ℕ, zero, suc, ◌+◌, Bool, true, false, not, ◌&&◌, ◌||◌, List, [], ◌∷◌, ◌++◌, leb, ltb, ◌==◌,
  if◌then◌else◌, min, add32, add64,
}
use nasdaq_order_book.Ultra.Book.{
  UltraBook, ultra_get_best_ask, ultra_get_best_bid, ultra_execute_order,
}
use nasdaq_order_book.Matching.Types.{
  Side, buy, sell, OrderType, market, limit, TimeInForce, day, ioc, fok, OrderStatus, new,
  partially_filled, filled, Order, Fill, MatchResult, remaining_quantity, is_fully_filled,
}

-- What the loop reads and writes: the aggressive order, the book, the counter of the engine, what
-- the callback was told, and the result so far.
pub record Crossing : Type 0 where
  pub order : Order
  pub book : UltraBook
  pub next_trade_id : ℕ
  pub notified : List Fill
  pub fills : List Fill
  pub total_filled : ℕ

unfoldable pub best_price : Side → UltraBook → ℕ
best_price buy book = ultra_get_best_ask book
best_price sell book = ultra_get_best_bid book

unfoldable pub can_execute : OrderType → Side → ℕ → ℕ → Bool
can_execute market side price best = true
can_execute limit buy price best = leb best price
can_execute limit sell price best = leb price best

abbrev pub is_ioc : TimeInForce → Bool
is_ioc ioc = true
is_ioc _ = false

-- The quantity of a trade: the passive order is simulated with 100.
unfoldable pub trade_quantity : Order → ℕ
trade_quantity o = min (remaining_quantity o) (min (remaining_quantity o) 100)

-- `create_fill`; the trade identifier is taken after the passive order's.
unfoldable pub create_fill : Order → ℕ → ℕ → ℕ → ℕ → Fill
create_fill o passive_id price qty trade_id = record {
  aggressive_order_id = o.id;
  passive_order_id = passive_id;
  symbol = o.symbol;
  execution_price = price;
  execution_quantity = qty;
  trade_id = trade_id;
}

-- One round of the loop past its tests. `callback` says whether one is set.
unfoldable pub trade : Bool → ℕ → Crossing → Crossing
trade callback price c =
    let passive_id = add64 c.next_trade_id 1000000 in
    let trade_id = add64 c.next_trade_id 1 in
    let qty = trade_quantity c.order in
    let fill = create_fill c.order passive_id price qty trade_id in
    record {
      order = record (c.order) { filled_quantity = add32 c.order.filled_quantity qty };
      book = ultra_execute_order c.book passive_id qty;
      next_trade_id = add64 trade_id 1;
      notified = if callback then c.notified ++ (fill ∷ []) else c.notified;
      fills = c.fills ++ (fill ∷ []);
      total_filled = add32 c.total_filled qty;
    }

-- The tests at the top of the loop: it goes on if the order is open and a price crosses.
unfoldable pub goes_on : Crossing → Bool
goes_on c =
    let best = best_price c.order.side c.book in
    not (is_fully_filled c.order)
    && (not (best == 0) && can_execute c.order.type c.order.side c.order.price best)

unfoldable pub cross_loop : ℕ → Bool → Crossing → Crossing
cross_loop zero callback c = c
cross_loop (suc n) callback c =
    let c' = trade callback (best_price c.order.side c.book) c in
    let rest = cross_loop n callback c' in
    if goes_on c then (if is_ioc c.order.tif then c' else rest) else c

unfoldable pub cross_status : Crossing → OrderStatus
cross_status c =
    if is_fully_filled c.order
    then filled
    else if ltb 0 c.total_filled
    then partially_filled
    else new

-- One more round than the order's quantity.
unfoldable pub attempt_cross : Bool → Order → UltraBook → ℕ → List Fill → Crossing
attempt_cross callback o book next_trade_id notified =
    cross_loop (suc o.quantity) callback (record {
      order = o;
      book = book;
      next_trade_id = next_trade_id;
      notified = notified;
      fills = [];
      total_filled = 0;
    })

unfoldable pub cross_result : Crossing → MatchResult
unfolding cross_status
cross_result c = record {
  final_status = cross_status c;
  fills = c.fills;
  total_filled = c.total_filled;
}
