-- ===== src/Ultra/Book/Cases.antt =====
-- The two outcomes of `ultra_addOrder`.
use nasdaq_order_book.Base.{
  ℕ, ◌+◌, ◌≡◌, ◌⊎◌, inl, inr, true, false, none, some, leb, Bool-cases, Option-cases,
}
use nasdaq_order_book.Ultra.Pool.{UltraPool, ultra_fast_acquire}
use nasdaq_order_book.Ultra.Table.{ultra_find}
use nasdaq_order_book.Ultra.Book.{UltraBook, place, add_new, ultra_add_order}

-- The book with one more order allocated.
abbrev pub grown : UltraBook → UltraBook
grown b = record b { order_pool = record (b.order_pool) { stack_top = b.order_pool.stack_top + 1 } }

acquire-full :
    (p : UltraPool) → leb p.capacity p.stack_top ≡ true → ultra_fast_acquire p ≡ (none, p)
unfolding ultra_fast_acquire
acquire-full p full = rw full

acquire-room :
    (p : UltraPool)
    → leb p.capacity p.stack_top ≡ false
    → ultra_fast_acquire p ≡ (some p.stack_top, record p { stack_top = p.stack_top + 1 })
unfolding ultra_fast_acquire
acquire-room p room = rw room

-- `ultra_addOrder` leaves the book alone, or places the order.
pub add_cases {ℓ} :
    (P : UltraBook → Type ℓ) (b : UltraBook) (id side q p : ℕ)
    → (((a : ℕ) × (ultra_find b.order_hash id ≡ some a))
          ⊎ (leb b.order_pool.capacity b.order_pool.stack_top ≡ true)
        → P b)
    → (ultra_find b.order_hash id ≡ none
        → leb b.order_pool.capacity b.order_pool.stack_top ≡ false
        → P (place (grown b) b.order_pool.stack_top id side q p))
    → P (ultra_add_order b id side q p)
unfolding ultra_add_order add_new
add_cases P b id side q p kept added = elim (Option-cases (ultra_find b.order_hash id)) [
  | inr (a, found) ↦ rw (found, ultra_add_order) (kept (inl (a, found)))
  | inl absent ↦ elim (Bool-cases (leb b.order_pool.capacity b.order_pool.stack_top)) [
    | inl full ↦ rw (absent, ultra_add_order, acquire-full b.order_pool full) (kept (inr full))
    | inr room ↦ rw (absent, ultra_add_order, acquire-room b.order_pool room) (added absent room)
  ]
]
