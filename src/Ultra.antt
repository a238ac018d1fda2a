-- ===== src/Ultra.antt =====
-- The classes of include/order_book.hpp whose names begin with `Ultra`.
pub mod Apply
pub mod Book
pub mod Refine
pub mod Spec
mod Tests
pub mod Order
pub mod Pool
pub mod Table
