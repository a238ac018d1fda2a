-- ===== src/Core/Event.antt =====
-- include/core/event.hpp: the variant `ItchEvent`. The symbol of `AddEvt` and `ReplaceEvt` is the
-- last argument.
use nasdaq_order_book.Base.{ℕ, ◌<◌, u32_mod}

pub data ItchEvent : Type 0 where
  -- identifier, side, quantity, price, symbol
  add : ℕ → ℕ → ℕ → ℕ → ℕ → ItchEvent
  -- identifier, executed quantity
  exec : ℕ → ℕ → ItchEvent
  -- identifier, quantity
  cancel : ℕ → ℕ → ItchEvent
  delete : ℕ → ItchEvent
  -- old identifier, new identifier, quantity, price, symbol
  replace : ℕ → ℕ → ℕ → ℕ → ℕ → ItchEvent

-- The quantity that an event brings in is a `uint32_t`.
abbrev pub IsNarrow : ItchEvent → Type 0
IsNarrow (add id side q p sym) = q < u32_mod
IsNarrow (replace old_id new_id q p sym) = q < u32_mod
IsNarrow _ = Unit {0}
