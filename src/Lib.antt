-- ===== src/Lib.antt =====
-- A NASDAQ order book, a matching engine and their feed handling, verified.
--
-- The program reads ITCH messages, turns each into an event, and applies the events to an order book
-- (include/order_book.hpp, include/core/apply.hpp). Beside that it has a matching engine
-- (src/matching/matching_engine.cpp), which keeps one such book for each symbol and crosses incoming
-- orders against it.
--
--   Base             shared tests, machine words, association lists
--   Core             include/core/event.hpp: the events; include/core/symbol_table.hpp: Symbols
--   Arbiter          include/net/arbiter.hpp and src/net/arbiter.cpp, which merges two feeds
--   Itch             include/itch/messages.hpp and src/itch/decoder.cpp: bytes, layouts and the decoder
--   Books            the older books of include/order_book.hpp and src/order_book.cpp:
--     Memory           `Order` and the pool that all books share; Chain: the links of the lists
--     Fast             `OptimizedOrderBook`
--     Plain            `OrderBook`; Queue, Priority and Leaving prove its levels queues
--     Index, Spec      what both do to the map of identifiers, and the abstract map of orders
--     Views            both books after a feed
--     Manager          `OrderBookManager`
--   Parser           src/itch_parser.cpp, which applies packets to the books of the manager
--   Fix              include/fix/fix_protocol.hpp: messages, their text, parser and builders
--   ObjectPool       include/object_pool.hpp, the pool of blocks with free masks, for one thread
--   Publisher        include/market_data/publisher.hpp and src/market_data/publisher.cpp: subscriptions, the
--                    queue of messages and their delivery
--   FileMode         the loop of the file mode in src/main.cpp
--   LockFree         include/lock_free_queue.hpp, with the interleavings of two threads
--   Ultra            include/order_book.hpp, the part from `UltraOrder` on:
--     Order, Pool      `UltraOrder`, `UltraPriceLevel`, `UltraFastOrderPool`
--     Table            `UltraHashTable`; Valid, Insert, Remove and Lookup prove it a map
--     Book             `UltraOrderBook` and its operations; below it the best prices, the totals of the
--                      levels, the life of an order, and faults
--     Spec, Refine     the abstract map of orders, and that a feed refines it
--     Apply            include/core/apply.hpp on an `UltraOrderBook`
--   Matching         include/matching/matching_engine.hpp and src/matching/matching_engine.cpp:
--     Types            the types of the header
--     Cross            `attempt_cross`; Fills and Phantom prove what it trades
--     Engine           `MatchingEngine`; Active and Outcomes prove its invariant and its answers
--     MarketData       its queries for market data
--     Manager, Router  include/matching/symbol_manager.hpp and src/matching/symbol_manager.cpp
--
-- State is passed explicitly: a method takes the state and returns the new one. A pointer to an order
-- is its index in the pool, `none` for null, and an array is a function of its index, written by
-- `update`. Integers are natural numbers with the wrap-around of their width written out in the
-- operations (add32 and its kin). A hash map of the standard library is an association list: the
-- code relies on lookup, insertion and removal, and its iteration order is left open by C++.
--
-- What C++ leaves uninitialised is a parameter: the memory of the pools, and the levels of an
-- `UltraOrderBook` that is declared as `OB ob;` (src/main.cpp), as opposed to one of
-- `std::make_unique`, which begins with zeros. A division by a tick size of 0 and the erasure from an
-- empty gap buffer are undefined in C++ and have a value here, which their comments state.
--
-- The probing loops run 64 rounds as in the code, and the loops over levels run over all 20001 levels.
-- The loop of `attempt_cross` has no bound in the code and runs here on fuel, one more round than the
-- quantity of the order, which is enough since each trade takes at least 1. The loop over a file runs
-- as many rounds as the file has bytes, which is enough since each message takes at least one.
--
-- The loop over a packet runs as many rounds as the packet has bytes, for the same reason. A decimal
-- number is written in at most one round more than its value.
--
-- The clock and the texts of floating-point numbers are parameters of the functions that use them.
--
-- Not modelled: the time stamps of orders and fills, which are recorded and never read; prefetches,
-- cache alignment and allocation; sockets, files and output; the latency tracker, which the books do
-- not use; the threads that share an object pool; the FIX sessions and the gateway; the subscribers
-- that print.
mod Base
pub mod Arbiter
pub mod Books
pub mod Core
pub mod FileMode
pub mod Fix
pub mod Itch
pub mod LockFree
pub mod Matching
pub mod ObjectPool
pub mod Parser
pub mod Publisher
pub mod Ultra
