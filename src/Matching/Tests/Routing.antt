-- ===== src/Matching/Tests/Routing.antt =====
-- A manager and a router with one symbol.
use nasdaq_order_book.Base.{
  ℕ, ◌+◌, ◌%◌, ◌≡◌, ◌<◌, ◌≤◌, ◌↔◌, refl, false, none, some, List, [], ◌∷◌, arith,
}
use nasdaq_order_book.Ultra.Order.{UltraOrder}
use nasdaq_order_book.Base.Assoc.{lookup, insert}
use nasdaq_order_book.Matching.Types.{buy, limit, day, new, Order}
use nasdaq_order_book.Matching.Engine
use nasdaq_order_book.Matching.Engine.{Engine, process_order, cancel_order}
use nasdaq_order_book.Matching.Manager
use nasdaq_order_book.Matching.Manager.{
  SymbolInfo, SymbolManager, new_info, get_symbol_id, get_symbol_name, get_symbol_info, opened,
  accepts_orders, add_symbol, set_symbol_state, update_stats,
}
use nasdaq_order_book.Matching.Manager.Runs.{Call, adds, sets, step, run, get_symbol_id-run}
use nasdaq_order_book.Matching.Router.{SymbolRouter, success, route_order, route_replace}
use nasdaq_order_book.Matching.Router.Outcomes.{
  Accepts, route_order-Accepts, route_order_rounds, route_replace_small,
}

abbrev garbage : ℕ → UltraOrder
garbage a = record { id_and_side = 0; quantity = 0; price = 0; next = none }

abbrev calls : List Call
calls = adds 77 1 1000 999999 ∷ sets 1 opened ∷ []

get_symbol_id-run_example :
    (get_symbol_id (run calls Manager.init) 77 ≡ some 1)
    ↔ (get_symbol_name (run calls Manager.init) 1 ≡ some 77)
get_symbol_id-run_example = get_symbol_id-run calls 77 1 (omega arith)

abbrev router : SymbolRouter
router = record {
  symbol_manager = run calls Manager.init;
  matching_engine = Engine.init false;
  stats = record {
    total_orders = 0;
    routed_orders = 0;
    rejected_orders = 0;
    invalid_symbol_orders = 0;
    market_closed_orders = 0;
  };
  order_id_counter = 10000;
}

abbrev info : SymbolInfo
info = record (new_info 1 77 1 1000 999999) { state = opened }

abbrev odd_lot : Order
odd_lot = record {
  id = 5;
  symbol = 1;
  side = buy;
  type = limit;
  tif = day;
  quantity = 150;
  filled_quantity = 0;
  price = 50000;
  status = new;
}

abbrev small_lot : Order
small_lot = record odd_lot { quantity = 50 }

there : get_symbol_info router.symbol_manager 1 ≡ some info
unfolding get_symbol_info run step Manager.init add_symbol set_symbol_state update_stats new_info
    lookup insert
there = refl

odd_lot-Accepts : Accepts info odd_lot
unfolding new_info
odd_lot-Accepts = record {
  open_for_orders = refl;
  priced = λ l. (omega arith, omega arith, omega arith);
  sized = (omega arith, omega arith);
}

small_lot-Accepts : Accepts info small_lot
unfolding new_info
small_lot-Accepts = record {
  open_for_orders = refl;
  priced = λ l. (omega arith, omega arith, omega arith);
  sized = (omega arith, omega arith);
}

route_order-Accepts_example :
    ((route_order garbage 1000 router odd_lot).0.result ≡ success) ↔ Accepts info odd_lot
route_order-Accepts_example = route_order-Accepts garbage 1000 router odd_lot info there

lot_positive : 0 < info.lot_size
unfolding new_info
lot_positive = omega arith

route_order_rounds_example :
    let o' = (route_order garbage 1000 router odd_lot).0.order in
    ((route_order garbage 1000 router odd_lot).1.matching_engine
      ≡ (process_order garbage 1000 router.matching_engine o').1)
    × (o' ≡ record odd_lot { quantity = o'.quantity })
    × (o'.quantity ≤ 150)
    × (150 < o'.quantity + info.lot_size)
    × (o'.quantity % info.lot_size ≡ 0)
route_order_rounds_example =
    route_order_rounds garbage 1000 router odd_lot info there lot_positive odd_lot-Accepts

below_lot : 50 < info.lot_size
unfolding new_info
below_lot = omega arith

route_replace_small_example :
    let (routed, r') = route_replace garbage 1000 router 4 small_lot in
    (routed.result ≡ success)
    × (r'.matching_engine ≡ (cancel_order garbage 1000 router.matching_engine 4).1)
route_replace_small_example =
    route_replace_small garbage 1000 router 4 small_lot info there small_lot-Accepts below_lot
