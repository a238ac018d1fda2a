-- ===== src/Matching/Types.antt =====
-- The types of include/matching/matching_engine.hpp. Time stamps are recorded by the code and never
-- read, and are left out.
use nasdaq_order_book.Base.{ℕ, Bool, true, false, List, [], leb, sub32}

pub data Side : Type 0 where
  buy sell : Side

pub data OrderType : Type 0 where
  market limit : OrderType

pub data TimeInForce : Type 0 where
  day ioc fok : TimeInForce

pub data OrderStatus : Type 0 where
  new partially_filled filled canceled rejected : OrderStatus

pub record Order : Type 0 where
  pub id : ℕ
  pub symbol : ℕ
  pub side : Side
  pub type : OrderType
  pub tif : TimeInForce
  pub quantity : ℕ
  pub filled_quantity : ℕ
  pub price : ℕ
  pub status : OrderStatus

-- `uint32_t` subtraction
unfoldable pub remaining_quantity : Order → ℕ
remaining_quantity o = sub32 o.quantity o.filled_quantity

unfoldable pub is_fully_filled : Order → Bool
is_fully_filled o = leb o.quantity o.filled_quantity

unfoldable pub is_buy : Side → Bool
is_buy buy = true
is_buy sell = false

pub record Fill : Type 0 where
  pub aggressive_order_id : ℕ
  pub passive_order_id : ℕ
  pub symbol : ℕ
  pub execution_price : ℕ
  pub execution_quantity : ℕ
  pub trade_id : ℕ

pub record MatchResult : Type 0 where
  pub final_status : OrderStatus
  pub fills : List Fill
  pub total_filled : ℕ

abbrev pub rejection : MatchResult
rejection = record { final_status = rejected; fills = []; total_filled = 0 }

-- The char of a side, as the book stores it.
abbrev pub side_char : Side → ℕ
side_char buy = b'B'
side_char sell = b'S'
