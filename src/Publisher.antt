-- ===== src/Publisher.antt =====
-- `MarketDataPublisher` of include/market_data/publisher.hpp and src/market_data/publisher.cpp. A lock
-- is held over each operation, so the operations follow one another; `on_market_data` of a subscriber
-- and `on_subscription_status` are entries of a log of calls. Times are in nanoseconds.
pub mod Delivery
pub mod Drain
pub mod Messages
pub mod Publishing
pub mod Queue
pub mod State
pub mod Subscribers
mod Tests
