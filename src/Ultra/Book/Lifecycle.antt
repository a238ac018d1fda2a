-- ===== src/Ultra/Book/Lifecycle.antt =====
-- `UltraOrderBook` implements the map of Ultra/Spec.antt, as long as the hash table has room.
use nasdaq_order_book.Base.{
  ℕ, ◌-◌, ◌≡◌, refl, ap, ◌∙◌, inl, inr, Bool, false, Option, some, none, arith, ltb, ◌==◌,
  if◌then◌else◌, ℕ-cases, Option-cases,
}
use nasdaq_order_book.Ultra.Order.{Ptr, UltraOrder, UltraPriceLevel, get_side}
use nasdaq_order_book.Ultra.Table.{ultra_find}
use nasdaq_order_book.Ultra.Table.Valid.{IsLive, IsTable}
use nasdaq_order_book.Ultra.Table.Lookup.{find-remove}
use nasdaq_order_book.Ultra.Spec.{OrderView, Orders, lower, spec_execute, spec_delete}
use nasdaq_order_book.Ultra.Book.Resting.{Bounded}
use nasdaq_order_book.Ultra.Book.{
  UltraBook, set_level, set_order, execute_at, ultra_execute_order, retire, forget,
  ultra_delete_order,
}

abbrev pub seen : UltraOrder → OrderView
seen o = record { side = get_side o; quantity = o.quantity; price = o.price }

abbrev pub see : UltraBook → Ptr → Option OrderView
see b none = none
see b (some a) = some (seen (b.order_pool.mem a))

-- The map that a book stands for.
unfoldable pub view : UltraBook → Orders
view b id = see b (ultra_find b.order_hash id)

-- The table is sound, its pointers are to allocated orders, and no two identifiers share one.
pub record IsOrders (b : UltraBook) : Type 0 where
  pub table : IsTable b.order_hash
  pub bounded : Bounded b.order_hash b.order_pool.stack_top
  pub distinct :
      (i j a : ℕ)
      → IsLive i
      → IsLive j
      → ultra_find b.order_hash i ≡ some a
      → ultra_find b.order_hash j ≡ some a
      → i ≡ j

pub view-none : (b : UltraBook) (id : ℕ) → ultra_find b.order_hash id ≡ none → view b id ≡ none
unfolding view
view-none b id e = rw e

pub view-some :
    (b : UltraBook) (id a : ℕ)
    → ultra_find b.order_hash id ≡ some a
    → view b id ≡ some (seen (b.order_pool.mem a))
unfolding view
view-some b id a e = rw e

-- A change of the order that `id` points to, seen through every identifier.
module _ (b : UltraBook) (valid : IsOrders b) (id a : ℕ) (o : UltraOrder) (live : IsLive id)
    (found : ultra_find b.order_hash id ≡ some a) where
  pub see-set_order :
      (j : ℕ) → IsLive j → view (set_order b a o) j ≡ (if j == id then some (seen o) else view b j)
  unfolding view set_order
  see-set_order j lj = elim (ℕ-cases j id) [
    | inl same ↦ ground (arith, ap (ultra_find b.order_hash) same)
    | inr other ↦ elim (Option-cases (ultra_find b.order_hash j)) [
      | inl miss ↦ ground arith
      | inr (c, hit) ↦ ground (arith, valid.distinct j id c lj live hit)
    ]
  ]

-- The levels are no part of the map.
pub view-set_level :
    (b : UltraBook) (is_buy : Bool) (i : ℕ) (l : UltraPriceLevel) (j : ℕ)
    → view (set_level b is_buy i l) j ≡ view b j
unfolding view set_level
view-set_level b is_buy i l j = refl

-- A test of equal identifiers, for any map.
pub if_same : (j id : ℕ) (m : Orders) → (j ≡ id → m j ≡ m id)
if_same j id m e = ap m e

module _ (b : UltraBook) (valid : IsOrders b) (id : ℕ) (live : IsLive id) where
  execute_at-view :
      (a : ℕ)
      → ultra_find b.order_hash id ≡ some a
      → (qty j : ℕ) → IsLive j
      → view (execute_at b a qty) j
        ≡ (if j == id then lower qty (some (seen (b.order_pool.mem a))) else view b j)
  unfolding execute_at get_side
  execute_at-view a found qty j lj =
      let old = b.order_pool.mem a in
      let left = old.quantity - (if ltb qty old.quantity then qty else old.quantity) in
      view-set_level _ _ _ _ j
      ∙ see-set_order b valid id a (record old { quantity = left }) live found j lj
      ∙ ground arith

  -- `ultra_executeOrder` lowers the order's quantity by what is executed, at most to zero, and
  -- touches no other order.
  pub execute-refines :
      (qty j : ℕ)
      → IsLive j
      → view (ultra_execute_order b id qty) j ≡ spec_execute (view b) id qty j
  unfolding ultra_execute_order
  execute-refines qty j lj = elim (Option-cases (ultra_find b.order_hash id)) [
    | inl miss ↦
        rw (miss, ultra_execute_order) (ground (arith, view-none b id miss, if_same j id (view b)))
    | inr (a, found) ↦
        rw (found, ultra_execute_order)
          (ground (arith, view-some b id a found, execute_at-view a found qty j lj))
  ]

  pub retire-view :
      (a : ℕ)
      → ultra_find b.order_hash id ≡ some a
      → (j : ℕ) → IsLive j
      → (j == id) ≡ false
      → view (retire b a) j ≡ view b j
  unfolding retire
  retire-view a found j lj other =
      view-set_level _ _ _ _ j
      ∙ see-set_order b valid id a (record (b.order_pool.mem a) { quantity = 0 }) live found j lj
      ∙ ground arith

  pub forget-view :
      (c : UltraBook) (j : ℕ)
      → IsTable c.order_hash
      → IsLive j
      → view (forget c id) j ≡ (if j == id then none else view c j)
  unfolding view forget
  forget-view c j table lj = ground (arith, find-remove c.order_hash id table live j lj)

  -- `ultra_deleteOrder` takes the order out of the map, and touches no other.
  pub delete-refines :
      (j : ℕ) → IsLive j → view (ultra_delete_order b id) j ≡ spec_delete (view b) id j
  unfolding ultra_delete_order retire set_level set_order
  delete-refines j lj = elim (Option-cases (ultra_find b.order_hash id)) [
    | inl miss ↦
        rw (miss, ultra_delete_order) (ground (arith, view-none b id miss, if_same j id (view b)))
    | inr (a, found) ↦
        rw (found, ultra_delete_order)
          (ground (arith, forget-view (retire b a) j valid.table lj, retire-view a found j lj))
  ]
