-- ===== src/Publisher/State.antt =====
-- The state of `MarketDataPublisher`, its beginning and its end.
use nasdaq_order_book.Base.{ℕ, Bool, true, false, not, List, [], ◌∷◌, ◌++◌}
use nasdaq_order_book.Publisher.Messages.{MessageType, MarketDataMessage}

pub record Subscription : Type 0 where
  pub symbol : ℕ
  pub message_type : MessageType
  pub enabled : Bool
  pub max_depth : ℕ
  pub throttle_ms : ℕ
  pub last_sent : ℕ

pub record SubscriberInfo : Type 0 where
  pub subscriptions : List Subscription
  pub active : Bool

pub record Stats : Type 0 where
  pub total_messages : ℕ
  pub level1_messages : ℕ
  pub level2_messages : ℕ
  pub trade_messages : ℕ
  pub status_messages : ℕ
  pub subscribers : ℕ
  pub dropped_messages : ℕ

abbrev pub no_stats : Stats
no_stats = record {
  total_messages = 0;
  level1_messages = 0;
  level2_messages = 0;
  trade_messages = 0;
  status_messages = 0;
  subscribers = 0;
  dropped_messages = 0;
}

pub record Config : Type 0 where
  pub max_queue_size : ℕ
  pub enable_level1 : Bool
  pub enable_level2 : Bool
  pub enable_trades : Bool
  pub enable_status : Bool
  pub default_l2_depth : ℕ

-- A call of a subscriber.
pub data Called : Type 0 where
  -- of `on_market_data`
  sends : ℕ → MarketDataMessage → Called
  -- of `on_subscription_status`: subscriber, symbol, type, active
  notifies : ℕ → ℕ → MessageType → Bool → Called

pub record Publisher : Type 0 where
  pub sequence_number : ℕ
  pub subscribers : List (ℕ × SubscriberInfo)
  pub message_queue : List MarketDataMessage
  pub running : Bool
  pub stats : Stats
  pub config : Config
  pub calls : List Called

unfoldable pub init : Config → Publisher
init config = record {
  sequence_number = 1;
  subscribers = [];
  message_queue = [];
  running = false;
  stats = no_stats;
  config = config;
  calls = [];
}

unfoldable pub start : Publisher → Bool × Publisher
start p = (not p.running, record p { running = true })

unfoldable pub stop : Publisher → Publisher
stop p = record p { running = false }

unfoldable pub call : Publisher → Called → Publisher
call p c = record p { calls = p.calls ++ c ∷ [] }
