-- ===== src/Books.antt =====
-- The two older books of src/order_book.cpp and include/order_book.hpp: `OrderBook`, which keeps its
-- price levels in a `std::map`, and `OptimizedOrderBook`, which keeps them in arrays.
pub mod Chain
pub mod Fast
pub mod Index
pub mod Memory
pub mod Manager
pub mod Plain
pub mod Spec
pub mod Tests
pub mod Views
