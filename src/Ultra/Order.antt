-- ===== src/Ultra/Order.antt =====
-- `UltraOrder` and `UltraPriceLevel` of include/order_book.hpp. A pointer is the index of an order
-- in the pool, `none` for null.
use nasdaq_order_book.Base.{
  ℕ, ◌+◌, ◌*◌, ◌/◌, ◌%◌, ◌^◌, ◌<◌, ◌≡◌, Option, arith, ◌==◌, if◌then◌else◌, u64_mod,
}

abbrev pub Ptr : Type 0
Ptr = Option ℕ

-- The two fields of padding are never read.
pub record UltraOrder : Type 0 where
  pub id_and_side : ℕ
  pub quantity : ℕ
  pub price : ℕ
  pub next : Ptr

-- `id_and_side >> 1`
unfoldable pub get_id : UltraOrder → ℕ
get_id o = o.id_and_side / 2

-- `(id_and_side & 1) ? 'B' : 'S'`
unfoldable pub get_side : UltraOrder → ℕ
get_side o = if o.id_and_side % 2 == 1 then b'B' else b'S'

-- `(id << 1) | (side == 'B' ? 1 : 0)`: the shift drops the top bit of `id` and leaves the low bit
-- clear, so the `|` is a sum.
unfoldable pub set_id_side : UltraOrder → ℕ → ℕ → UltraOrder
set_id_side o id side = record o {
  id_and_side = id * 2 % u64_mod + (if side == b'B' then 1 else 0);
}

pub record UltraPriceLevel : Type 0 where
  pub total_quantity : ℕ
  pub order_count : ℕ
  pub first_order : Ptr

-- What `memset` to zero leaves.
abbrev pub zero_level : UltraPriceLevel
zero_level = record { total_quantity = 0; order_count = 0; first_order = Option.none }

-- The packing of an identifier of 64 bits loses only the top bit of the identifier, and every side that is not 'B' reads back
-- as 'S'.
pub set_id_side_lem :
    (o : UltraOrder) (id side : ℕ)
    → id < u64_mod
    → (get_id (set_id_side o id side) ≡ id % 2 ^ 63)
      × (get_side (set_id_side o id side) ≡ (if side == b'B' then b'B' else b'S'))
unfolding get_id get_side set_id_side
set_id_side_lem o id side h = ground arith
