-- ===== src/Books/Index.antt =====
-- The hash map of identifiers over the pool, which `OrderBook` and `OptimizedOrderBook` share: what it
-- shows, and what each change of an entry does to that.
pub mod Feed
pub mod Step
use nasdaq_order_book.Base.{
  ℕ, ◌+◌, ◌<◌, ◌≡◌, refl, ◌∙◌, inl, inr, false, Bool-cases, Option-cases, arith, Option, none, some,
  List, ◌==◌, if◌then◌else◌, update,
}
use nasdaq_order_book.Base.Assoc.{lookup, insert, erase, lookup-insert, lookup-erase}
use nasdaq_order_book.Ultra.Spec.{OrderView, Orders, spec_delete}
use nasdaq_order_book.Books.Memory.{Order, Storage, content, SameData}

abbrev pub Entries : Type 0
Entries = List (ℕ × ℕ)

abbrev pub shown : Storage → Option ℕ → Option OrderView
shown m none = none
shown m (some a) = some (content (m a))

abbrev pub view : Entries → Storage → Orders
view es m j = shown m (lookup j es)

-- An entry leads to an order that carries its identifier and lies below the pool's index.
abbrev pub IsIndex : Entries → Storage → ℕ → Type 0
IsIndex es m n = (j a : ℕ) → lookup j es ≡ some a → ((m a).id ≡ j) × (a < n)

pub shown-SameData : (m n : Storage) → SameData m n → (p : Option ℕ) → shown m p ≡ shown n p
shown-SameData m n same none = refl
shown-SameData m n same (some a) = rw ((same a).1)

pub IsIndex-SameData :
    (es : Entries) (m n : Storage) (k : ℕ) → SameData m n → IsIndex es n k → IsIndex es m k
IsIndex-SameData es m n k same valid j a h = ((same a).0 ∙ (valid j a h).0, (valid j a h).1)

module _ (es : Entries) (m : Storage) (n : ℕ) (valid : IsIndex es m n) where
  -- The place that is handed out next is seen nowhere.
  shown-fresh : (o : Order) (j : ℕ) → shown (update m n o) (lookup j es) ≡ view es m j
  shown-fresh o j = elim (Option-cases (lookup j es)) [
    | inl h ↦ rw (h)
    | inr h ↦ rw (h.1) (ground (arith, valid j h.0 h.1))
  ]

  -- An order is seen under its own identifier only.
  shown-other :
      (id a : ℕ) (o : Order) (j : ℕ)
      → lookup id es ≡ some a
      → (j == id) ≡ false
      → shown (update m a o) (lookup j es) ≡ view es m j
  shown-other id a o j found other = elim (Option-cases (lookup j es)) [
    | inl h ↦ rw (h)
    | inr h ↦ rw (h.1) (ground (arith, valid j h.0 h.1, valid id a found))
  ]

  pub view-write :
      (id a : ℕ) (o : Order) (j : ℕ)
      → lookup id es ≡ some a
      → view es (update m a o) j ≡ (if j == id then some (content o) else view es m j)
  view-write id a o j found = elim (Bool-cases (j == id)) [
    | inl same ↦ let eq : j ≡ id = ground arith in rw (eq, found) (ground arith)
    | inr other ↦ rw (other) (shown-other id a o j found other)
  ]

  pub view-insert :
      (id : ℕ) (o : Order) (j : ℕ)
      → view (insert id n es) (update m n o) j ≡ (if id == j then some (content o) else view es m j)
  view-insert id o j = elim (Bool-cases (id == j)) [
    | inl same ↦ rw (lookup-insert, same) (ground arith)
    | inr other ↦ rw (lookup-insert, other) (shown-fresh o j)
  ]

  pub view-erase : (id j : ℕ) → view (erase id es) m j ≡ spec_delete (view es m) id j
  view-erase id j = rw (lookup-erase) (ground arith)

  pub view-rename :
      (old_id new_id a : ℕ) (o : Order) (j : ℕ)
      → lookup old_id es ≡ some a
      → view (insert new_id a (erase old_id es)) (update m a o) j
        ≡ (if j == new_id then some (content o) else spec_delete (view es m) old_id j)
  view-rename old_id new_id a o j found = elim (Bool-cases (j == old_id)) [
    | inl same ↦ rw (lookup-insert, lookup-erase) (ground arith)
    | inr other ↦
        rw (lookup-insert, lookup-erase) (ground (arith, shown-other old_id a o j found other))
  ]

  pub insert-IsIndex :
      (id : ℕ) (o : Order) → o.id ≡ id → IsIndex (insert id n es) (update m n o) (n + 1)
  insert-IsIndex id o own j a h = let k = rw (lookup-insert) at h in ground (arith, valid j a)

  pub write-IsIndex : (a : ℕ) (o : Order) → o.id ≡ (m a).id → IsIndex es (update m a o) n
  write-IsIndex a o own j b h = ground (arith, valid j b h)

  pub erase-IsIndex : (id : ℕ) → IsIndex (erase id es) m n
  erase-IsIndex id j a h = let k = rw (lookup-erase) at h in ground (arith, valid j a)

  pub rename-IsIndex :
      (old_id new_id a : ℕ) (o : Order)
      → lookup old_id es ≡ some a
      → o.id ≡ new_id
      → IsIndex (insert new_id a (erase old_id es)) (update m a o) n
  rename-IsIndex old_id new_id a o found own j b h =
      let k = rw (lookup-insert, lookup-erase) at h in
      ground (arith, valid j b, valid old_id a found)
