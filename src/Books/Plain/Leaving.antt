-- ===== src/Books/Plain/Leaving.antt =====
-- An order that is deleted from an `OrderBook` leaves the others of its price in their order.
use nasdaq_order_book.Base.{
  ℕ, ◌<◌, ◌≡◌, ◌≢◌, refl, ap, ◌∙◌, inl, inr, true, false, Bool-cases, Option, arith, none, some,
  List, [], ◌∷◌, ◌++◌, ◌==◌, if◌then◌else◌, u32_mod, All,
}
use nasdaq_order_book.Base.Assoc.{insert, erase, lookup, lookup-insert, lookup-erase}
use nasdaq_order_book.Books.Memory.{Storage, release_order, unlink, unlink-SameData}
use nasdaq_order_book.Books.Plain.{
  State, PriceLevel, empty_level, levels, set_levels, set_storage, set_entries, level_or_new,
  detach, level_of, remove_from, remove_from_level, delete_at, delete_order,
}
use nasdaq_order_book.Books.Plain.Queue.{IsQueue, held, held-SameData, detach-IsQueue}
use nasdaq_order_book.Books.Plain.Priority.{Waits, levels-set_levels}

-- Each of the orders has something left, and together they fit into 32 bits.
pub record IsSound (m : Storage) (xs : List ℕ) : Type 0 where
  pub positive : All (λ a. 0 < (m a).quantity) xs
  pub fits : held m xs < u32_mod

-- An empty level.
nobody : (m : Storage) → IsQueue m empty_level []
nobody m = record { head = refl; tail = refl; distinct = tt; linked = tt; total = refl }

none-some : {a : ℕ} → none ≢ some a
none-some h = ground arith

held_zero : (m : Storage) (xs : List ℕ) → All (λ a. 0 < (m a).quantity) xs → held m xs ≡ 0 → xs ≡ []
held_zero m [] positive zero = refl
held_zero m (x ∷ xs) positive zero = absurd (omega (arith, positive.0, zero))

module _ (s : State) (a : ℕ) (l : PriceLevel) where
  abbrev left : PriceLevel
  left = detach (unlink s.pool.storage a) a l

  level-remove_from :
      lookup
        (s.pool.storage a).price
        (levels (remove_from s a (some l)) ((s.pool.storage a).side == b'B'))
      ≡ (if left.quantity == 0 then none else some left)
  unfolding remove_from
  level-remove_from =
      let ls = levels s ((s.pool.storage a).side == b'B') in
      let price = (s.pool.storage a).price in
      ap (lookup price) (
        levels-set_levels (set_storage s (unlink s.pool.storage a))
          ((s.pool.storage a).side == b'B')
          (if left.quantity == 0 then erase price ls else insert price left ls))
      ∙ elim (left.quantity == 0)
          as (λ b.
            lookup price (if b then erase price ls else insert price left ls)
            ≡ (if b then none else some left)) [
              | true ↦ lookup-erase price price ls ∙ ground arith
              | false ↦ lookup-insert price price left ls ∙ ground arith
            ]

  storage-remove_from : (remove_from s a (some l)).pool.storage ≡ unlink s.pool.storage a
  unfolding remove_from set_levels set_storage
  storage-remove_from = refl

  remove_from-Waits :
      (xs ys : List ℕ)
      → (s.pool.storage a).quantity < u32_mod
      → IsSound s.pool.storage (xs ++ ys)
      → IsQueue s.pool.storage l (xs ++ a ∷ ys)
      → Waits
          (remove_from s a (some l))
          ((s.pool.storage a).side == b'B')
          (s.pool.storage a).price
          (xs ++ ys)
  unfolding level_or_new
  remove_from-Waits xs ys narrow sound queue =
      let m = s.pool.storage in
      let rest = detach-IsQueue m l xs a ys narrow queue in
      rw (level-remove_from, storage-remove_from)
        (elim (Bool-cases (left.quantity == 0)) [
          | inl empty ↦
              let same = held-SameData (unlink m a) m (unlink-SameData m a) (xs ++ ys) in
              let zero : left.quantity ≡ 0 = ground arith in
              let gone : xs ++ ys ≡ [] =
                held_zero m (xs ++ ys) sound.positive
                  (omega (arith, same, zero, rest.total, sound.fits)) in
              rw (empty, gone) (nobody (unlink m a))
          | inr some_left ↦ rw (some_left) rest
        ])

found_level :
    (l : Option PriceLevel) (m : Storage) (xs : List ℕ) (a : ℕ) (ys : List ℕ)
    → IsQueue m (level_or_new l) (xs ++ a ∷ ys)
    → (k : PriceLevel) × (l ≡ some k)
unfolding level_or_new
found_level none m [] a ys queue = absurd (none-some queue.head)
found_level none m (x ∷ xs) a ys queue = absurd (none-some queue.head)
found_level (some k) m xs a ys queue = (k, refl)

delete_at-Waits :
    (s : State) (id a : ℕ) (xs ys : List ℕ)
    → (s.pool.storage a).quantity < u32_mod
    → IsSound s.pool.storage (xs ++ ys)
    → Waits s ((s.pool.storage a).side == b'B') (s.pool.storage a).price (xs ++ a ∷ ys)
    → Waits (delete_at s id a) ((s.pool.storage a).side == b'B') (s.pool.storage a).price (xs ++ ys)
unfolding delete_at release_order set_entries remove_from_level level_of levels level_or_new
delete_at-Waits s id a xs ys narrow sound waits =
    let (l, found) = found_level (level_of s a) s.pool.storage xs a ys waits in
    rw (found) (remove_from-Waits s a l xs ys narrow sound (rw found at waits))

delete_order-found :
    (s : State) (id a : ℕ) → lookup id s.book.orders ≡ some a → delete_order s id ≡ delete_at s id a
unfolding delete_order
delete_order-found s id a found = rw (found, delete_order) refl

-- A deletion takes an order of 32 bits away, wherever it waits, and the others of its level wait in
-- the same order, provided that each of them has something left and that together they fit into 32
-- bits: else the total may come to 0, and the level is erased with the orders that wait.
pub delete_order-Waits :
    (s : State) (id a : ℕ) (xs ys : List ℕ)
    → lookup id s.book.orders ≡ some a
    → (s.pool.storage a).quantity < u32_mod
    → IsSound s.pool.storage (xs ++ ys)
    → Waits s ((s.pool.storage a).side == b'B') (s.pool.storage a).price (xs ++ a ∷ ys)
    → Waits
        (delete_order s id)
        ((s.pool.storage a).side == b'B')
        (s.pool.storage a).price
        (xs ++ ys)
delete_order-Waits s id a xs ys found narrow sound waits =
    rw (delete_order-found s id a found) (delete_at-Waits s id a xs ys narrow sound waits)
