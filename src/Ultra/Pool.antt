-- ===== src/Ultra/Pool.antt =====
-- `UltraFastOrderPool` of include/order_book.hpp.
use nasdaq_order_book.Base.{ℕ, ◌+◌, none, some, leb, if◌then◌else◌}
use nasdaq_order_book.Ultra.Order.{Ptr, UltraOrder}

-- `mem` is the array `pool_`; a write to it is a write at an index below `capacity`.
pub record UltraPool : Type 0 where
  pub mem : ℕ → UltraOrder
  pub capacity : ℕ
  pub stack_top : ℕ

-- The allocation is not initialised, so its contents are the argument.
unfoldable pub new : (ℕ → UltraOrder) → ℕ → UltraPool
new garbage capacity = record { mem = garbage; capacity = capacity; stack_top = 0 }

-- `top + 1` does not wrap: `top < capacity_`, a `uint32_t`.
unfoldable pub ultra_fast_acquire : UltraPool → Ptr × UltraPool
ultra_fast_acquire p =
    if leb p.capacity p.stack_top
    then (none, p)
    else (some p.stack_top, record p { stack_top = p.stack_top + 1 })

unfoldable pub reset : UltraPool → UltraPool
reset p = record p { stack_top = 0 }
