-- ===== src/Matching/MarketData.antt =====
-- `get_level1_data`, `get_level2_data` and `get_stats` of src/matching/matching_engine.cpp.
pub mod Depth
use nasdaq_order_book.Base.{
  ℕ, zero, suc, ◌+◌, ◌*◌, ◌-◌, Bool, true, false, ◌&&◌, Option, none, some, List, [], ◌∷◌, ltb,
  if◌then◌else◌, length, add32, add64, sub32, u32_mod, ◌%◌,
}
use nasdaq_order_book.Base.Assoc.{lookup}
use nasdaq_order_book.Ultra.Book.{UltraBook, ultra_get_best_bid, ultra_get_best_ask}
use nasdaq_order_book.Matching.Engine.{Engine}

pub record Level1Data : Type 0 where
  pub symbol : ℕ
  pub best_bid_price : ℕ
  pub best_bid_quantity : ℕ
  pub best_ask_price : ℕ
  pub best_ask_quantity : ℕ

pub record PriceLevel : Type 0 where
  pub price : ℕ
  pub quantity : ℕ
  pub order_count : ℕ

pub record Level2Data : Type 0 where
  pub symbol : ℕ
  pub bids : List PriceLevel
  pub asks : List PriceLevel

-- The quantities are simulated.
unfoldable pub simulated_quantity : ℕ → ℕ
simulated_quantity price = if ltb 0 price then 100 else 0

unfoldable pub get_level1_data : Engine → ℕ → Level1Data
get_level1_data e symbol = elim (lookup symbol e.order_books) [
  | none ↦ record {
    symbol = symbol;
    best_bid_price = 0;
    best_bid_quantity = 0;
    best_ask_price = 0;
    best_ask_quantity = 0;
  }
  | some book ↦
      let bid = ultra_get_best_bid book in
      let ask = ultra_get_best_ask book in
      record {
        symbol = symbol;
        best_bid_price = bid;
        best_bid_quantity = simulated_quantity bid;
        best_ask_price = ask;
        best_ask_quantity = simulated_quantity ask;
      }
]

abbrev simulated_level : ℕ → ℕ → PriceLevel
simulated_level price i = record { price = price; quantity = 50 + i * 10; order_count = 1 }

-- The loop over the bids with `n` rounds left of the four that `i < 5` allows.
unfoldable pub bid_levels : ℕ → ℕ → ℕ → ℕ → List PriceLevel
bid_levels zero best depth i = []
bid_levels (suc n) best depth i =
    let rest = bid_levels n best depth (i + 1) in
    let level_price = sub32 best i in
    if ltb i depth
    then (if ltb 0 level_price then simulated_level level_price i ∷ rest else rest)
    else []

unfoldable pub ask_levels : ℕ → ℕ → ℕ → ℕ → List PriceLevel
ask_levels zero best depth i = []
ask_levels (suc n) best depth i =
    let rest = ask_levels n best depth (i + 1) in
    if ltb i depth then simulated_level (add32 best i) i ∷ rest else []

-- The best level and the levels simulated from it, if there is a price.
unfoldable pub side_levels : ℕ → ℕ → List PriceLevel → List PriceLevel
side_levels best quantity simulated =
    if ltb 0 best
    then record { price = best; quantity = quantity; order_count = 1 } ∷ simulated
    else []

unfoldable pub get_level2_data : Engine → ℕ → ℕ → Level2Data
get_level2_data e symbol depth =
    let l1 = get_level1_data e symbol in
    record {
      symbol = symbol;
      bids =
          side_levels l1.best_bid_price l1.best_bid_quantity
            (bid_levels 4 l1.best_bid_price depth 1);
      asks =
          side_levels l1.best_ask_price l1.best_ask_quantity
            (ask_levels 4 l1.best_ask_price depth 1);
    }

pub record Stats : Type 0 where
  pub active_symbols : ℕ
  pub active_orders : ℕ
  pub total_orders_processed : ℕ
  pub total_fills : ℕ
  pub total_volume : ℕ

-- `total_orders` is a static variable that the call itself increments; nothing writes the other two.
unfoldable pub get_stats : Engine → ℕ → Stats × ℕ
get_stats e total_orders =
    let total_orders' = add64 total_orders 1 in
    (
      record {
        active_symbols = length e.order_books % u32_mod;
        active_orders = length e.active_orders % u32_mod;
        total_orders_processed = total_orders';
        total_fills = 0;
        total_volume = 0;
      },
      total_orders',
    )
