-- ===== src/Publisher/Messages.antt =====
-- The messages of include/market_data/publisher.hpp and the builders of src/market_data/publisher.cpp.
-- Time stamps, which only the recorder prints, are left out.
use nasdaq_order_book.Base.{ℕ, Bool, ◌&&◌, List, ◌++◌, map, ltb, if◌then◌else◌, sub32}
use nasdaq_order_book.Matching.Types.{Fill}
use nasdaq_order_book.Matching.Engine.{Engine}
use nasdaq_order_book.Matching.MarketData.{PriceLevel, get_level1_data, get_level2_data}
use nasdaq_order_book.Matching.Manager.{SymbolState}

pub data MessageType : Type 0 where
  level1_update level2_update trade_report symbol_status snapshot_l1 snapshot_l2 : MessageType

-- The number of a type.
abbrev pub code : MessageType → ℕ
code level1_update = 1
code level2_update = 2
code trade_report = 3
code symbol_status = 4
code snapshot_l1 = 5
code snapshot_l2 = 6

pub record Level1Update : Type 0 where
  pub symbol : ℕ
  pub best_bid_price : ℕ
  pub best_bid_quantity : ℕ
  pub best_ask_price : ℕ
  pub best_ask_quantity : ℕ
  pub sequence_number : ℕ

unfoldable pub has_bid : Level1Update → Bool
has_bid u = ltb 0 u.best_bid_price

unfoldable pub has_ask : Level1Update → Bool
has_ask u = ltb 0 u.best_ask_price

unfoldable pub spread : Level1Update → ℕ
unfolding has_bid has_ask
spread u = if has_bid u && has_ask u then sub32 u.best_ask_price u.best_bid_price else 0

pub record Level2PriceLevel : Type 0 where
  pub price : ℕ
  pub quantity : ℕ
  pub order_count : ℕ
  pub side : ℕ
  pub action : ℕ

pub record Level2Update : Type 0 where
  pub symbol : ℕ
  pub price_levels : List Level2PriceLevel
  pub sequence_number : ℕ
  pub is_snapshot : Bool

pub record TradeReport : Type 0 where
  pub symbol : ℕ
  pub trade_id : ℕ
  pub execution_price : ℕ
  pub execution_quantity : ℕ
  pub aggressive_order_id : ℕ
  pub passive_order_id : ℕ
  pub aggressive_side : ℕ
  pub sequence_number : ℕ

-- The reason is a text.
pub record SymbolStatus : Type 0 where
  pub symbol : ℕ
  pub old_state : SymbolState
  pub new_state : SymbolState
  pub reason : List ℕ
  pub sequence_number : ℕ

-- `data`: the part that the type of the message names; the other parts keep their defaults.
pub data Payload : Type 0 where
  level1 : Level1Update → Payload
  level2 : Level2Update → Payload
  trade : TradeReport → Payload
  status : SymbolStatus → Payload

pub record MarketDataMessage : Type 0 where
  pub type : MessageType
  pub sequence_number : ℕ
  pub payload : Payload

-- The switch of `should_deliver`.
unfoldable pub symbol_of : Payload → ℕ
symbol_of (level1 u) = u.symbol
symbol_of (level2 u) = u.symbol
symbol_of (trade r) = r.symbol
symbol_of (status s) = s.symbol

-- The builders; `sequence` is what `sequence_number_` holds, the number of the next message.
unfoldable pub build_level1_update : Engine → ℕ → ℕ → Level1Update
build_level1_update engine sequence symbol =
    let d = get_level1_data engine symbol in
    record {
      symbol = symbol;
      best_bid_price = d.best_bid_price;
      best_bid_quantity = d.best_bid_quantity;
      best_ask_price = d.best_ask_price;
      best_ask_quantity = d.best_ask_quantity;
      sequence_number = sequence;
    }

unfoldable pub convert_level : ℕ → Bool → PriceLevel → Level2PriceLevel
convert_level side is_snapshot l = record {
  price = l.price;
  quantity = l.quantity;
  order_count = l.order_count;
  side = side;
  action = if is_snapshot then b'A' else b'M';
}

unfoldable pub build_level2_update : Engine → ℕ → ℕ → ℕ → Bool → Level2Update
unfolding convert_level
build_level2_update engine depth sequence symbol is_snapshot =
    let d = get_level2_data engine symbol depth in
    record {
      symbol = symbol;
      price_levels =
          map (convert_level b'B' is_snapshot) d.bids
          ++ map (convert_level b'A' is_snapshot) d.asks;
      sequence_number = sequence;
      is_snapshot = is_snapshot;
    }

unfoldable pub build_trade_report : ℕ → Fill → TradeReport
build_trade_report sequence f = record {
  symbol = f.symbol;
  trade_id = f.trade_id;
  execution_price = f.execution_price;
  execution_quantity = f.execution_quantity;
  aggressive_order_id = f.aggressive_order_id;
  passive_order_id = f.passive_order_id;
  aggressive_side = b'B';
  sequence_number = sequence;
}

unfoldable pub build_symbol_status : ℕ → ℕ → SymbolState → SymbolState → List ℕ → SymbolStatus
build_symbol_status sequence symbol old_state new_state reason = record {
  symbol = symbol;
  old_state = old_state;
  new_state = new_state;
  reason = reason;
  sequence_number = sequence;
}
