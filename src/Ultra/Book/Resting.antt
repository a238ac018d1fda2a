-- ===== src/Ultra/Book/Resting.antt =====
-- What the orders of a pool add up to on a level, and pointers that stay inside the pool.
use nasdaq_order_book.Base.{
  ℕ, zero, suc, ◌+◌, ◌≤◌, ◌<◌, ◌≡◌, refl, inl, inr, Bool, true, false, ◌&&◌, some, arith, ◌==◌,
  if◌then◌else◌, update, ℕ-cases,
}
use nasdaq_order_book.Ultra.Order.{UltraOrder, get_side}
use nasdaq_order_book.Ultra.Table.{
  UltraTable, Entry, probes, probe, ultra_hash, find_loop, ultra_find, ultra_insert, ultra_remove,
}
use nasdaq_order_book.Ultra.Table.Insert.{Inserted, hit, fresh, evict, insert-Inserted, entry}
use nasdaq_order_book.Ultra.Table.Remove
use nasdaq_order_book.Ultra.Table.Remove.{Removed, remove-Removed, grave}
use nasdaq_order_book.Ultra.Book.{ultra_price_to_index}

abbrev pub same : Bool → Bool → Bool
same true b = b
same false true = false
same false false = true

-- The side and level on which the code counts an order.
unfoldable pub on_level : UltraOrder → Bool → ℕ → Bool
on_level o is_buy i = same (get_side o == b'B') is_buy && ultra_price_to_index o.price == i

unfoldable pub share : UltraOrder → Bool → ℕ → ℕ
unfolding on_level
share o is_buy i = if on_level o is_buy i then o.quantity else 0

-- The quantities of the first `n` orders of the pool that count on a level.
unfoldable pub resting : (ℕ → UltraOrder) → ℕ → Bool → ℕ → ℕ
resting mem zero is_buy i = 0
resting mem (suc n) is_buy i = share (mem n) is_buy i + resting mem n is_buy i

module _ (mem : ℕ → UltraOrder) (a : ℕ) (o : UltraOrder) (is_buy : Bool) (i : ℕ) where
  pub resting-outside :
      (n : ℕ) → n ≤ a → resting (update mem a o) n is_buy i ≡ resting mem n is_buy i
  unfolding resting
  resting-outside zero h = refl
  resting-outside (suc n) h = ground (arith, resting-outside n (omega arith))

  pub resting-update :
      (n : ℕ)
      → a < n
      → resting (update mem a o) n is_buy i + share (mem a) is_buy i
        ≡ resting mem n is_buy i + share o is_buy i
  unfolding resting
  resting-update zero h = absurd (omega arith)
  resting-update (suc n) h = elim (ℕ-cases n a) [
    | inl last ↦ ground (arith, resting-outside n (omega arith))
    | inr other ↦ ground (arith, resting-update n (ground arith))
  ]

pub share-le-resting :
    (mem : ℕ → UltraOrder) (a : ℕ) (is_buy : Bool) (i n : ℕ)
    → a < n
    → share (mem a) is_buy i ≤ resting mem n is_buy i
unfolding resting
share-le-resting mem a is_buy i zero h = absurd (omega arith)
share-le-resting mem a is_buy i (suc n) h = elim (ℕ-cases n a) [
  | inl last ↦ ground arith
  | inr other ↦ ground (arith, share-le-resting mem a is_buy i n (ground arith))
]

-- Every pointer of the table is to an order below `n`.
abbrev pub Bounded : UltraTable → ℕ → Type 0
Bounded t n = (s a : ℕ) → (t s).order ≡ some a → a < n

Bounded-update :
    (t : UltraTable) (n s : ℕ) (e : Entry)
    → Bounded t n
    → ((a : ℕ) → e.order ≡ some a → a < n)
    → Bounded (update t s e) n
Bounded-update t n s e b new x a = elim (ℕ-cases x s) [
  | inl here ↦ ground (arith, new a)
  | inr other ↦ ground (arith, b x a)
]

pub Bounded-insert :
    (t : UltraTable) (n id a : ℕ) → Bounded t n → a < n → Bounded (ultra_insert t id (some a)) n
Bounded-insert t n id a b lt = go (ultra_insert t id (some a)) (insert-Inserted t id (some a))
  where
    fits : (x : ℕ) → some a ≡ some x → x < n
    fits x e = ground arith

    go : (r : UltraTable) → Inserted t id (some a) (ultra_hash id) r → Bounded r n
    go r (hit j q k busy e) = rw e (Bounded-update t n _ (entry id (some a)) b fits)
    go r (fresh m j le q busy stop free e) = rw e (Bounded-update t n _ (entry id (some a)) b fits)
    go r (evict busy clean e) = rw e (Bounded-update t n _ (entry id (some a)) b fits)

pub Bounded-remove : (t : UltraTable) (n id : ℕ) → Bounded t n → Bounded (ultra_remove t id) n
Bounded-remove t n id b = go (ultra_remove t id) (remove-Removed t id)
  where
    go : (r : UltraTable) → Removed t id (ultra_hash id) r → Bounded r n
    go r (Remove.hit j q k e) = rw e (Bounded-update t n _ grave b (λ a e'. absurd (ground arith)))
    go r (Remove.miss j busy stop e) = rw e b

find_loop-Bounded :
    (t : UltraTable) (n id h a k i : ℕ) → Bounded t n → find_loop k t id h i ≡ some a → a < n
unfolding find_loop
find_loop-Bounded t n id h a zero i b e = absurd (ground arith)
find_loop-Bounded t n id h a (suc k) i b e =
    ground (arith, b (probe h i) a, find_loop-Bounded t n id h a k (i + 1) b)

-- What is found is inside the pool.
pub find-Bounded : (t : UltraTable) (n id a : ℕ) → Bounded t n → ultra_find t id ≡ some a → a < n
unfolding ultra_find
find-Bounded t n id a b = find_loop-Bounded t n id (ultra_hash id) a probes 0 b
