-- ===== src/Ultra/Book/Renewal.antt =====
-- `ultra_addOrder` and `ultra_replaceOrder` against the map of Ultra/Spec.antt, and the invariant
-- under all operations.
use nasdaq_order_book.Base.{
  ℕ, ◌+◌, ◌<◌, ◌≡◌, ◌⊎◌, ◌∙◌, inl, inr, true, some, arith, leb, ◌==◌, if◌then◌else◌, Option-cases,
}
use nasdaq_order_book.Ultra.Order.{UltraOrder, get_side}
use nasdaq_order_book.Ultra.Table.{ultra_find}
use nasdaq_order_book.Ultra.Table.Valid.{IsLive}
use nasdaq_order_book.Ultra.Table.Insert.{HasRoom}
use nasdaq_order_book.Ultra.Table.Lookup.{insert-IsTable, find-insert, remove-IsTable, find-remove}
use nasdaq_order_book.Ultra.Spec.{order_view, side_of, spec_add, spec_delete, spec_replace}
use nasdaq_order_book.Ultra.Book.Resting.{Bounded-insert, Bounded-remove, find-Bounded}
use nasdaq_order_book.Ultra.Book.Cases.{grown, add_cases}
use nasdaq_order_book.Ultra.Book.Lifecycle.{
  seen, view, IsOrders, view-none, view-some, retire-view, forget-view, if_same,
}
use nasdaq_order_book.Ultra.Book.{
  UltraBook, set_level, set_order, fill_order, ultra_add_to_level, place, ultra_add_order,
  execute_at, ultra_execute_order, retire, forget, ultra_delete_order, ultra_replace_order,
}

-- The pool has an order left and the identifier's probe path has a slot.
pub record CanAdd (b : UltraBook) (id : ℕ) : Type 0 where
  pub in_pool : b.order_pool.stack_top < b.order_pool.capacity
  pub in_table : HasRoom b.order_hash id

get_side-fill :
    (o : UltraOrder) (id side q p : ℕ) → get_side (fill_order o id side q p) ≡ side_of side
unfolding get_side fill_order
get_side-fill o id side q p = ground arith

module _ (b : UltraBook) (valid : IsOrders b) (id : ℕ) (live : IsLive id) (room : CanAdd b id)
    (side q p : ℕ) where
  abbrev placed : UltraBook
  placed = place (grown b) b.order_pool.stack_top id side q p

  placed-find :
      (j : ℕ)
      → IsLive j
      → ultra_find placed.order_hash j
        ≡ (if j == id then some b.order_pool.stack_top else ultra_find b.order_hash j)
  unfolding place ultra_add_to_level set_level set_order
  placed-find j lj =
      find-insert b.order_hash id (some b.order_pool.stack_top) valid.table live j room.in_table lj

  placed-new : seen (placed.order_pool.mem b.order_pool.stack_top) ≡ order_view side q p
  unfolding place ultra_add_to_level set_level set_order fill_order get_side
  placed-new = ground arith

  placed-old : (c : ℕ) → c < b.order_pool.stack_top → placed.order_pool.mem c ≡ b.order_pool.mem c
  unfolding place ultra_add_to_level set_level set_order
  placed-old c h = ground arith

  placed-view :
      (j : ℕ)
      → IsLive j
      → view placed j ≡ (if j == id then some (order_view side q p) else view b j)
  unfolding view
  placed-view j lj = elim (Option-cases (ultra_find b.order_hash j)) [
    | inl miss ↦ ground (arith, placed-find j lj, placed-new)
    | inr (c, hit) ↦ ground (
      arith,
      placed-find j lj,
      placed-new,
      placed-old c (find-Bounded b.order_hash b.order_pool.stack_top j c valid.bounded hit),
    )
  ]

  kept :
      ((a : ℕ) × (ultra_find b.order_hash id ≡ some a))
        ⊎ (leb b.order_pool.capacity b.order_pool.stack_top ≡ true)
      → (j : ℕ) → view b j ≡ spec_add (view b) id side q p j
  kept (inl (a, found)) j = ground (arith, view-some b id a found, if_same j id (view b))
  kept (inr full) j = absurd (ground (arith, room.in_pool))

  -- With room, `ultra_addOrder` adds the order to the map unless its identifier is in use, and
  -- touches no other order.
  pub add-refines :
      (j : ℕ) → IsLive j → view (ultra_add_order b id side q p) j ≡ spec_add (view b) id side q p j
  add-refines j lj =
      add_cases (λ c. view c j ≡ spec_add (view b) id side q p j) b id side q p (λ why. kept why j)
        (λ absent _. ground (arith, placed-view j lj, view-none b id absent))

  placed-IsOrders : IsOrders placed
  unfolding place ultra_add_to_level set_level set_order
  placed-IsOrders = record {
    table = insert-IsTable b.order_hash id (some b.order_pool.stack_top) valid.table live;
    bounded =
        Bounded-insert b.order_hash (b.order_pool.stack_top + 1) id b.order_pool.stack_top
          (λ s a e. omega (arith, valid.bounded s a e)) (omega arith);
    distinct = λ i j a li lj fi fj. ground (
      arith,
      placed-find i li,
      placed-find j lj,
      valid.distinct i j a li lj,
      find-Bounded b.order_hash b.order_pool.stack_top i a valid.bounded,
      find-Bounded b.order_hash b.order_pool.stack_top j a valid.bounded,
    );
  }

-- Every operation keeps the invariant.
pub add-IsOrders :
    (b : UltraBook) (id side q p : ℕ)
    → IsLive id
    → CanAdd b id
    → IsOrders b
    → IsOrders (ultra_add_order b id side q p)
add-IsOrders b id side q p live room valid =
    add_cases IsOrders b id side q p (λ _. valid)
      (λ _ _. placed-IsOrders b valid id live room side q p)

pub execute-IsOrders :
    (b : UltraBook) (id qty : ℕ) → IsOrders b → IsOrders (ultra_execute_order b id qty)
unfolding ultra_execute_order execute_at set_level set_order
execute-IsOrders b id qty valid = elim (Option-cases (ultra_find b.order_hash id)) [
  | inl miss ↦ rw (miss, ultra_execute_order) valid
  | inr (a, found) ↦
      rw (found, ultra_execute_order)
        (record { table = valid.table; bounded = valid.bounded; distinct = valid.distinct })
]

retire-IsOrders : (b : UltraBook) (a : ℕ) → IsOrders b → IsOrders (retire b a)
unfolding retire set_level set_order
retire-IsOrders b a valid = record {
  table = valid.table;
  bounded = valid.bounded;
  distinct = valid.distinct;
}

forget-IsOrders : (b : UltraBook) (id : ℕ) → IsLive id → IsOrders b → IsOrders (forget b id)
unfolding forget
forget-IsOrders b id live valid = record {
  table = remove-IsTable b.order_hash id valid.table live;
  bounded = Bounded-remove b.order_hash b.order_pool.stack_top id valid.bounded;
  distinct = λ i j a li lj fi fj. ground (
    arith,
    find-remove b.order_hash id valid.table live i li,
    find-remove b.order_hash id valid.table live j lj,
    valid.distinct i j a li lj,
  );
}

pub delete-IsOrders :
    (b : UltraBook) (id : ℕ) → IsLive id → IsOrders b → IsOrders (ultra_delete_order b id)
unfolding ultra_delete_order
delete-IsOrders b id live valid = elim (Option-cases (ultra_find b.order_hash id)) [
  | inl miss ↦ rw (miss, ultra_delete_order) valid
  | inr (a, found) ↦
      rw (found, ultra_delete_order)
        (forget-IsOrders (retire b a) id live (retire-IsOrders b a valid))
]

-- The book that `ultra_replaceOrder` adds the new order to.
abbrev pub without : UltraBook → ℕ → ℕ → UltraBook
without b old_id a = forget (retire b a) old_id

module _ (b : UltraBook) (valid : IsOrders b) (old_id new_id q p : ℕ) (live_old : IsLive old_id)
    (live_new : IsLive new_id)
    (room : (a : ℕ)
      → ultra_find b.order_hash old_id ≡ some a
      → CanAdd (without b old_id a) new_id) where
  without-IsOrders : (a : ℕ) → IsOrders (without b old_id a)
  without-IsOrders a = forget-IsOrders (retire b a) old_id live_old (retire-IsOrders b a valid)

  pub replace-IsOrders : IsOrders (ultra_replace_order b old_id new_id q p)
  unfolding ultra_replace_order
  replace-IsOrders = elim (Option-cases (ultra_find b.order_hash old_id)) [
    | inl miss ↦ rw (miss, ultra_replace_order) valid
    | inr (a, found) ↦
        rw (found, ultra_replace_order)
          (add-IsOrders (without b old_id a) new_id (get_side (b.order_pool.mem a)) q p live_new
            (room a found) (without-IsOrders a))
  ]

  without-view :
      (a j : ℕ)
      → ultra_find b.order_hash old_id ≡ some a
      → IsLive j
      → view (without b old_id a) j ≡ spec_delete (view b) old_id j
  unfolding retire set_level set_order
  without-view a j found lj = ground (
    arith,
    forget-view b valid old_id live_old (retire b a) j valid.table lj,
    retire-view b valid old_id live_old a found j lj,
  )

  -- `ultra_replaceOrder` of a known order takes it out and adds the new one on its side; of an
  -- unknown one it changes nothing.
  pub replace-refines :
      (j : ℕ)
      → IsLive j
      → view (ultra_replace_order b old_id new_id q p) j ≡ spec_replace (view b) old_id new_id q p j
  unfolding ultra_replace_order
  replace-refines j lj = elim (Option-cases (ultra_find b.order_hash old_id)) [
    | inl miss ↦ rw (miss, ultra_replace_order) (ground (arith, view-none b old_id miss))
    | inr (a, found) ↦
        rw (found, ultra_replace_order)
          (add-refines (without b old_id a) (without-IsOrders a) new_id live_new (room a found)
              (get_side (b.order_pool.mem a)) q p j lj
            ∙ ground (
              arith,
              view-some b old_id a found,
              without-view a j found lj,
              without-view a new_id found live_new,
            ))
  ]
