-- ===== src/Ultra/Apply.antt =====
-- `core::apply` of include/core/apply.hpp on an `UltraOrderBook`, over a feed of events.
use nasdaq_order_book.Base.{ℕ, ◌<◌, u32_mod, Bool, List, [], ◌∷◌}
use nasdaq_order_book.Core.Event.{ItchEvent, add, exec, cancel, delete, replace, IsNarrow}
use nasdaq_order_book.Ultra.Order.{UltraOrder}
use nasdaq_order_book.Ultra.Book.{
  UltraBook, Levels, uninitialised, ultra_add_order, ultra_execute_order, ultra_delete_order,
  ultra_replace_order,
}
use nasdaq_order_book.Ultra.Book.Totals.{
  IsBook, totals_of, uninitialised-IsBook, add-IsBook, execute-IsBook, delete-IsBook,
  replace-IsBook,
}

unfoldable pub apply : ItchEvent → UltraBook → UltraBook
apply (add id side q p sym) b = ultra_add_order b id side q p
apply (exec id q) b = ultra_execute_order b id q
apply (cancel id q) b = ultra_execute_order b id q
apply (delete id) b = ultra_delete_order b id
apply (replace old_id new_id q p sym) b = ultra_replace_order b old_id new_id q p

unfoldable pub apply_all : List ItchEvent → UltraBook → UltraBook
unfolding apply
apply_all [] b = b
apply_all (e ∷ es) b = apply_all es (apply e b)

abbrev pub AllNarrow : List ItchEvent → Type 0
AllNarrow [] = Unit {0}
AllNarrow (e ∷ es) = IsNarrow e × AllNarrow es

pub apply-IsBook :
    (base : Bool → ℕ → ℕ) (e : ItchEvent) (b : UltraBook)
    → IsNarrow e
    → IsBook base b
    → IsBook base (apply e b)
unfolding apply
apply-IsBook base (add id side q p sym) b narrow valid = add-IsBook base b id side q p valid narrow
apply-IsBook base (exec id q) b narrow valid = execute-IsBook base b id q valid
apply-IsBook base (cancel id q) b narrow valid = execute-IsBook base b id q valid
apply-IsBook base (delete id) b narrow valid = delete-IsBook base b id valid
apply-IsBook base (replace old_id new_id q p sym) b narrow valid =
    replace-IsBook base b old_id new_id q p valid narrow

pub apply_all-IsBook :
    (base : Bool → ℕ → ℕ) (es : List ItchEvent) (b : UltraBook)
    → AllNarrow es
    → IsBook base b
    → IsBook base (apply_all es b)
unfolding apply_all
apply_all-IsBook base [] b narrow valid = valid
apply_all-IsBook base (e ∷ es) b narrow valid =
    apply_all-IsBook base es (apply e b) narrow.1 (apply-IsBook base e b narrow.0 valid)

-- After any feed with quantities of 32 bits, into a book whose memory held any words of 32 bits, the
-- total of every level is, modulo 2 ^ 32, what the memory held there and what the orders that the pool
-- ever handed out still hold on that side and level, and every pointer of the table is to such an order.
pub feed-IsBook :
    (bids asks : Levels) (garbage : ℕ → UltraOrder) (capacity : ℕ) (es : List ItchEvent)
    → ((is_buy : Bool) (i : ℕ) → totals_of bids asks is_buy i < u32_mod)
    → AllNarrow es
    → IsBook (totals_of bids asks) (apply_all es (uninitialised bids asks garbage capacity))
feed-IsBook bids asks garbage capacity es words narrow =
    apply_all-IsBook (totals_of bids asks) es (uninitialised bids asks garbage capacity) narrow
      (uninitialised-IsBook bids asks garbage capacity words)
