-- ===== src/Matching/Router.antt =====
-- `SymbolRouter` of include/matching/symbol_manager.hpp and src/matching/symbol_manager.cpp. The
-- texts of the error messages are left out, and the engine throws no exception.
pub mod Outcomes
use nasdaq_order_book.Base.{
  ℕ, ◌+◌, Bool, true, false, not, ◌&&◌, ◌||◌, Option, none, some, List, [], ◌∷◌, ◌==◌,
  if◌then◌else◌, add64,
}
use nasdaq_order_book.Ultra.Order.{UltraOrder}
use nasdaq_order_book.Matching.Types.{
  Side, OrderType, market, limit, TimeInForce, new, Order, Fill, MatchResult,
}
use nasdaq_order_book.Matching.Engine.{Engine, process_order, cancel_order}
use nasdaq_order_book.Matching.Manager.{
  SymbolManager, is_valid_symbol, can_trade_symbol, validate_price, validate_quantity,
  round_to_tick, round_to_lot, update_symbol_stats, get_symbol_id,
}

pub data RouteResult : Type 0 where
  success invalid_symbol market_closed invalid_price invalid_quantity rejected : RouteResult

pub record RoutedOrder : Type 0 where
  pub order : Order
  pub result : RouteResult

pub record RoutingStats : Type 0 where
  pub total_orders : ℕ
  pub routed_orders : ℕ
  pub rejected_orders : ℕ
  pub invalid_symbol_orders : ℕ
  pub market_closed_orders : ℕ

-- `order_id_counter` is a static variable of the second `route_order`.
pub record SymbolRouter : Type 0 where
  pub symbol_manager : SymbolManager
  pub matching_engine : Engine
  pub stats : RoutingStats
  pub order_id_counter : ℕ

unfoldable pub reset_stats : SymbolRouter → SymbolRouter
reset_stats r = record r {
  stats = record {
    total_orders = 0;
    routed_orders = 0;
    rejected_orders = 0;
    invalid_symbol_orders = 0;
    market_closed_orders = 0;
  };
}

abbrev pub is_limit : OrderType → Bool
is_limit limit = true
is_limit market = false

-- What the four checks of `route_order` say of an order, in their order.
unfoldable pub check : SymbolManager → Order → RouteResult
check m o =
    if not (is_valid_symbol m o.symbol)
    then invalid_symbol
    else if not (can_trade_symbol m o.symbol)
    then market_closed
    else if is_limit o.type && not (validate_price m o.symbol o.price)
    then invalid_price
    else if not (validate_quantity m o.symbol o.quantity)
    then invalid_quantity
    else success

abbrev pub is_success : RouteResult → Bool
is_success success = true
is_success _ = false

abbrev pub is_invalid_symbol : RouteResult → Bool
is_invalid_symbol invalid_symbol = true
is_invalid_symbol _ = false

abbrev pub is_market_closed : RouteResult → Bool
is_market_closed market_closed = true
is_market_closed _ = false

-- The counters of a rejected order
unfoldable pub count_rejected : RouteResult → RoutingStats → RoutingStats
count_rejected why s = record s {
  total_orders = add64 s.total_orders 1;
  rejected_orders = add64 s.rejected_orders 1;
  invalid_symbol_orders =
      if is_invalid_symbol why then add64 s.invalid_symbol_orders 1 else s.invalid_symbol_orders;
  market_closed_orders =
      if is_market_closed why then add64 s.market_closed_orders 1 else s.market_closed_orders;
}

unfoldable pub count_routed : RoutingStats → RoutingStats
count_routed s = record s {
  total_orders = add64 s.total_orders 1;
  routed_orders = add64 s.routed_orders 1;
}

-- Price and quantity are rounded before the order goes to the engine.
unfoldable pub round_order : SymbolManager → Order → Order
round_order m o = record o {
  price = if is_limit o.type then round_to_tick m o.symbol o.price else o.price;
  quantity = round_to_lot m o.symbol o.quantity;
}

unfoldable pub record_fills : ℕ → List Fill → SymbolManager → SymbolManager
record_fills symbol [] m = m
record_fills symbol (f ∷ fs) m =
    record_fills symbol fs (update_symbol_stats m symbol f.execution_quantity true)

module _ (garbage : ℕ → UltraOrder) (capacity : ℕ) where
  -- The part of `route_order` after the checks
  unfoldable pub deliver : SymbolRouter → Order → RoutedOrder × SymbolRouter
  deliver r o =
      let o' = round_order r.symbol_manager o in
      let (result, e) = process_order garbage capacity r.matching_engine o' in
      (
        record { order = o'; result = success },
        record r {
          symbol_manager = record_fills o.symbol result.fills r.symbol_manager;
          matching_engine = e;
          stats = count_routed r.stats;
        },
      )

  unfoldable pub route_order : SymbolRouter → Order → RoutedOrder × SymbolRouter
  route_order r o =
      let why = check r.symbol_manager o in
      if is_success why
      then deliver r o
      else (record { order = o; result = why }, record r { stats = count_rejected why r.stats })

  -- The order that the second `route_order` makes up. Where the symbol is unknown, its result holds
  -- a default order, which is the argument.
  unfoldable pub route_order_named :
      Order → SymbolRouter → ℕ → Side → OrderType → ℕ → ℕ → TimeInForce → RoutedOrder × SymbolRouter
  route_order_named default r name side type quantity price tif =
      elim (get_symbol_id r.symbol_manager name) [
        | none ↦ (
          record { order = default; result = invalid_symbol },
          record r {
            stats = record (count_rejected invalid_symbol r.stats) {
              total_orders = r.stats.total_orders;
            };
          },
        )
        | some id ↦
            route_order (record r { order_id_counter = add64 r.order_id_counter 1 })
              (record {
                id = r.order_id_counter;
                symbol = id;
                side = side;
                type = type;
                tif = tif;
                quantity = quantity;
                filled_quantity = 0;
                price = price;
                status = new;
              })
      ]

  unfoldable pub route_orders : SymbolRouter → List Order → List RoutedOrder × SymbolRouter
  route_orders r [] = ([], r)
  route_orders r (o ∷ os) =
      let (first, r₁) = route_order r o in
      let (others, r₂) = route_orders r₁ os in (first ∷ others, r₂)

  unfoldable pub route_cancel : SymbolRouter → ℕ → Bool × SymbolRouter
  route_cancel r order_id =
      let (done, e) = cancel_order garbage capacity r.matching_engine order_id in
      (done, record r { matching_engine = e })

  unfoldable pub route_replace : SymbolRouter → ℕ → Order → RoutedOrder × SymbolRouter
  route_replace r old_id new_order =
      let (routed, r') = route_order r new_order in
      let cancelled = record r' {
        matching_engine = (cancel_order garbage capacity r'.matching_engine old_id).1;
      } in
      (routed, if is_success routed.result then cancelled else r')
