-- ===== src/Matching/Tests.antt =====
-- Runs of `MatchingEngine`, and its theorems at small orders.
mod Routing
use nasdaq_order_book.Base.{
  ℕ, ◌+◌, ◌≡◌, ◌<◌, ◌≤◌, ◌↔◌, ◌⊎◌, refl, ap, inl, true, false, none, some, List, [], ◌∷◌, arith,
  if◌then◌else◌, ◌==◌, All,
}
use nasdaq_order_book.Base.Assoc.{lookup}
use nasdaq_order_book.Ultra.Order.{UltraOrder}
use nasdaq_order_book.Ultra.Table
use nasdaq_order_book.Ultra.Table.{ultra_find, ultra_insert}
use nasdaq_order_book.Ultra.Table.Valid.{IsLive}
use nasdaq_order_book.Ultra.Table.Lookup.{find-insert, new-IsTable}
use nasdaq_order_book.Ultra.Book
use nasdaq_order_book.Ultra.Book.{
  UltraBook, ultra_add_order, ultra_delete_order, ultra_get_best_bid, ultra_get_best_ask,
}
use nasdaq_order_book.Ultra.Book.Lifecycle.{view, IsOrders}
use nasdaq_order_book.Ultra.Book.Renewal.{add-IsOrders}
use nasdaq_order_book.Ultra.Refine.{new-IsOrders}
use nasdaq_order_book.Matching.Types.{buy, sell, limit, day, new, filled, Order, rejected}
use nasdaq_order_book.Matching.Cross.{
  goes_on, is_ioc, attempt_cross, cross_status, best_price, can_execute,
}
use nasdaq_order_book.Matching.Cross.Fills.{
  IsOrder, IsFillOf, IsCrossing, volume, attempt_cross-IsCrossing, attempt_cross_ends,
  cross_status_lem,
}
use nasdaq_order_book.Matching.Cross.Phantom.{NoneSimulated, crossing_order_fills}
use nasdaq_order_book.Matching.Engine.{
  Engine, init, steps, process_order, cancel_order, replace_order, get_order,
}
use nasdaq_order_book.Matching.MarketData.{get_level2_data}
use nasdaq_order_book.Matching.MarketData.Depth.{prices, down, up, shown, get_level2_data_lem}
use nasdaq_order_book.Matching.Engine.Active.{Call, processes, cancels, run, step, get_order-run}
use nasdaq_order_book.Matching.Engine.Outcomes.{
  process_order_lem, replace_order_zero, cancel_order_lem,
}

abbrev garbage : ℕ → UltraOrder
garbage a = record { id_and_side = 0; quantity = 0; price = 0; next = none }

abbrev seller : Order
seller = record {
  id = 7;
  symbol = 1;
  side = sell;
  type = limit;
  tif = day;
  quantity = 60;
  filled_quantity = 0;
  price = 40000;
  status = new;
}

abbrev buyer : Order
buyer = record {
  id = 8;
  symbol = 1;
  side = buy;
  type = limit;
  tif = day;
  quantity = 150;
  filled_quantity = 0;
  price = 40001;
  status = new;
}

seller-IsOrder : IsOrder seller
seller-IsOrder = record { narrow = omega arith; open_part = omega arith }

buyer-IsOrder : IsOrder buyer
buyer-IsOrder = record { narrow = omega arith; open_part = omega arith }

abbrev asks : UltraBook
asks = ultra_add_order (Book.new garbage 1000) 7 b'S' 60 40000

abbrev resting : Engine
resting = (process_order garbage 1000 (init true) seller).1

buyer_fills : (process_order garbage 1000 resting buyer).0.final_status ≡ filled
unfolding steps
buyer_fills = refl

attempt_cross-IsCrossing_example : IsCrossing buyer (attempt_cross true buyer asks 1 [])
attempt_cross-IsCrossing_example = attempt_cross-IsCrossing buyer buyer-IsOrder true asks 1 []

attempt_cross_ends_example :
    (goes_on (attempt_cross true buyer asks 1 []) ≡ false) ⊎ (is_ioc buyer.tif ≡ true)
attempt_cross_ends_example = attempt_cross_ends buyer buyer-IsOrder true asks 1 []

cross_status_lem_example :
    let c = attempt_cross true buyer asks 1 [] in
    ((cross_status c ≡ filled) ↔ (c.order.filled_quantity ≡ 150))
    × ((cross_status c ≡ new) ↔ ((c.order.filled_quantity < 150) × (volume c.fills ≡ 0)))
cross_status_lem_example = cross_status_lem buyer buyer-IsOrder true asks 1 []

empty_find : (j : ℕ) → ultra_find Table.new j ≡ none
unfolding ultra_find
empty_find j = ground arith

asks_table : asks.order_hash ≡ ultra_insert Table.new 7 (some 0)
unfolding Book.steps Book.new
asks_table = refl

-- The table of `asks` finds order 7 only.
asks-NoneSimulated : NoneSimulated asks 1 151
asks-NoneSimulated k lo hi =
    let found =
      find-insert Table.new 7 (some 0) new-IsTable (omega arith, omega arith) (k + 1000000)
        (record { at = 0; within = omega arith; free = inl refl }) (omega arith, omega arith) in
    ground (arith, found, empty_find (k + 1000000), ap (λ t. ultra_find t (k + 1000000)) asks_table)

asks_best : best_price buy asks ≡ 40000
unfolding steps
asks_best = refl

crossing_order_fills_example :
    ((attempt_cross true buyer asks 1 []).order.filled_quantity ≡ 150)
    × ((attempt_cross true buyer asks 1 []).book ≡ asks)
unfolding can_execute
crossing_order_fills_example =
    crossing_order_fills buyer buyer-IsOrder true asks 1 [] (omega arith) asks-NoneSimulated
      (ground (arith, asks_best)) (ground (arith, asks_best)) refl

abbrev calls : List Call
calls = processes seller ∷ cancels 9 ∷ []

found_seller : get_order (run garbage 1000 calls (init true)) 7 ≡ some seller
unfolding steps run step get_order
found_seller = refl

get_order-run_example : (seller.id ≡ 7) × (seller.filled_quantity < seller.quantity)
get_order-run_example =
    get_order-run garbage 1000 true calls 7 seller (seller-IsOrder, (tt, tt)) found_seller

process_order_lem_example :
    let r = (process_order garbage 1000 resting buyer).0 in
    ((r.final_status ≡ rejected) ↔ (buyer.quantity ≡ 0))
    × (volume r.fills ≡ r.total_filled)
    × (0 + r.total_filled ≤ 150)
    × All (IsFillOf buyer) r.fills
process_order_lem_example = process_order_lem garbage 1000 resting buyer buyer-IsOrder

abbrev empty_order : Order
empty_order = record buyer { quantity = 0 }

seller_rests : get_order resting 7 ≡ some seller
unfolding steps get_order
seller_rests = refl

replace_order_zero_example :
    ((replace_order garbage 1000 resting 7 empty_order).0 ≡ false)
    × (get_order (replace_order garbage 1000 resting 7 empty_order).1 7 ≡ none)
replace_order_zero_example =
    replace_order_zero garbage 1000 resting 7 seller empty_order seller_rests refl

resting_book : lookup 1 resting.order_books ≡ some asks
unfolding steps
resting_book = refl

asks-IsOrders : IsOrders asks
unfolding Book.new
asks-IsOrders =
    add-IsOrders (Book.new garbage 1000) 7 b'S' 60 40000 (omega arith, omega arith)
      (record {
        in_pool = omega arith;
        in_table = record { at = 0; within = omega arith; free = inl refl };
      })
      (new-IsOrders garbage 1000)

cancel_order_lem_example :
    let (done, e') = cancel_order garbage 1000 resting 7 in
    (done ≡ true)
    × (get_order e' 7 ≡ none)
    × (lookup 1 e'.order_books ≡ some (ultra_delete_order asks 7))
    × ((j : ℕ)
        → IsLive j
        → view (ultra_delete_order asks 7) j ≡ (if j == 7 then none else view asks j))
cancel_order_lem_example =
    cancel_order_lem garbage 1000 resting 7 seller asks seller_rests resting_book asks-IsOrders
      (omega arith, omega arith)

get_level2_data_lem_example :
    let d = get_level2_data resting 1 3 in
    (prices d.bids ≡ down (ultra_get_best_bid asks) (shown (ultra_get_best_bid asks) 3))
    × (prices d.asks ≡ up (ultra_get_best_ask asks) (shown (ultra_get_best_ask asks) 3))
get_level2_data_lem_example = get_level2_data_lem resting 1 3 asks resting_book
