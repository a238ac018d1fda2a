-- ===== src/Ultra/Book/Totals.antt =====
-- Each level's total is what the orders of the pool add up to.
use nasdaq_order_book.Base.{
  ℕ, suc, ◌+◌, ◌%◌, ◌<◌, ◌≡◌, refl, inl, inr, Bool, ◌&&◌, arith, ◌==◌, ltb, if◌then◌else◌, update,
  ◌∙◌, Option-cases, u32_mod, sub32, add32,
}
use mathlib.Core.Path.{subst}
use nasdaq_order_book.Ultra.Order.{UltraOrder, UltraPriceLevel, get_side}
use nasdaq_order_book.Ultra.Table.{ultra_find}
use nasdaq_order_book.Ultra.Book.Cases.{grown, add_cases}
use nasdaq_order_book.Ultra.Book.Resting.{
  same, on_level, share, resting, resting-update, resting-outside, share-le-resting, Bounded,
  Bounded-insert, Bounded-remove, find-Bounded,
}
use nasdaq_order_book.Ultra.Book.{
  UltraBook, Levels, new, uninitialised, levels, set_level, set_order, ultra_price_to_index,
  execute_at, retire, forget, place, fill_order, ultra_add_to_level, ultra_add_order,
  ultra_execute_order, ultra_delete_order, ultra_replace_order,
}

-- The base is what the totals of the levels were before any order.
pub record IsBook (base : Bool → ℕ → ℕ) (b : UltraBook) : Type 0 where
  pub pointers : Bounded b.order_hash b.order_pool.stack_top
  pub narrow : (a : ℕ) → a < b.order_pool.stack_top → (b.order_pool.mem a).quantity < u32_mod
  pub totals :
      (is_buy : Bool) (i : ℕ)
      → (levels b is_buy i).total_quantity
        ≡ (base is_buy i + resting b.order_pool.mem b.order_pool.stack_top is_buy i) % u32_mod

-- What the levels add up to before any order.
abbrev pub totals_of : Levels → Levels → Bool → ℕ → ℕ
totals_of bids asks is_buy i = ((if is_buy then bids else asks) i).total_quantity

pub uninitialised-IsBook :
    (bids asks : Levels) (garbage : ℕ → UltraOrder) (capacity : ℕ)
    → ((is_buy : Bool) (i : ℕ) → totals_of bids asks is_buy i < u32_mod)
    → IsBook (totals_of bids asks) (uninitialised bids asks garbage capacity)
unfolding uninitialised new levels resting
uninitialised-IsBook bids asks garbage capacity words = record {
  pointers = λ s a e. absurd (ground arith);
  narrow = λ a h. absurd (omega arith);
  totals = λ is_buy i. omega (arith, words is_buy i);
}

module _ (base : Bool → ℕ → ℕ) where
  -- An order's quantity falls by `d`, and so does the total of its level.
  module _ (b : UltraBook) (valid : IsBook base b) (a : ℕ) (lt : a < b.order_pool.stack_top) where
    abbrev old : UltraOrder
    old = b.order_pool.mem a

    lowered-totals :
        (o : UltraOrder) (d : ℕ) (l : UltraPriceLevel) (is_buy : Bool) (i : ℕ)
        → old.quantity ≡ o.quantity + d
        → get_side o ≡ get_side old
        → o.price ≡ old.price
        → l.total_quantity
          ≡ sub32
              (levels b (get_side old == b'B') (ultra_price_to_index old.price)).total_quantity
              d
        → (levels
            (set_level (set_order b a o) (get_side old == b'B') (ultra_price_to_index old.price) l)
            is_buy
            i).total_quantity
          ≡ (base is_buy i + resting (update b.order_pool.mem a o) b.order_pool.stack_top is_buy i)
            % u32_mod
    unfolding levels set_level set_order share on_level
    lowered-totals o d l is_buy i q side price total = ground (
      arith,
      valid.totals is_buy i,
      valid.narrow a lt,
      resting-update b.order_pool.mem a o is_buy i b.order_pool.stack_top lt,
      share-le-resting b.order_pool.mem a is_buy i b.order_pool.stack_top lt,
    )

    lowered-IsBook :
        (o : UltraOrder) (d : ℕ) (l : UltraPriceLevel)
        → old.quantity ≡ o.quantity + d
        → get_side o ≡ get_side old
        → o.price ≡ old.price
        → l.total_quantity
          ≡ sub32
              (levels b (get_side old == b'B') (ultra_price_to_index old.price)).total_quantity
              d
        → IsBook base
            (set_level (set_order b a o) (get_side old == b'B') (ultra_price_to_index old.price) l)
    unfolding set_level set_order
    lowered-IsBook o d l q side price total = record {
      pointers = valid.pointers;
      narrow = λ x h. ground (arith, valid.narrow x h, valid.narrow a lt);
      totals = λ is_buy i. lowered-totals o d l is_buy i q side price total;
    }

    pub execute_at-IsBook : (qty : ℕ) → IsBook base (execute_at b a qty)
    unfolding execute_at get_side
    execute_at-IsBook qty =
        lowered-IsBook _ (if ltb qty old.quantity then qty else old.quantity) _ (ground arith) refl
          refl refl

    pub retire-IsBook : IsBook base (retire b a)
    unfolding retire get_side
    retire-IsBook = lowered-IsBook _ old.quantity _ (omega arith) refl refl refl

  pub forget-IsBook : (b : UltraBook) (id : ℕ) → IsBook base b → IsBook base (forget b id)
  unfolding forget levels
  forget-IsBook b id valid = record {
    pointers = Bounded-remove b.order_hash b.order_pool.stack_top id valid.pointers;
    narrow = valid.narrow;
    totals = valid.totals;
  }

  pub get_side-fill :
      (o : UltraOrder) (id side q p : ℕ)
      → (get_side (fill_order o id side q p) == b'B') ≡ (side == b'B')
  unfolding get_side fill_order
  get_side-fill o id side q p = ground arith

  -- A fresh order at the top of the stack adds its quantity to its level.
  module _ (b : UltraBook) (valid : IsBook base b) (id side q p : ℕ) (fits : q < u32_mod) where
    abbrev placed : UltraBook
    placed = place (grown b) b.order_pool.stack_top id side q p

    counted : Bool → ℕ → Bool
    counted is_buy i = same (side == b'B') is_buy && ultra_price_to_index p == i

    placed-old :
        (is_buy : Bool) (i : ℕ)
        → resting placed.order_pool.mem b.order_pool.stack_top is_buy i
          ≡ resting b.order_pool.mem b.order_pool.stack_top is_buy i
    unfolding place set_level set_order ultra_add_to_level
    placed-old is_buy i =
        resting-outside _ b.order_pool.stack_top _ is_buy i b.order_pool.stack_top (omega arith)
        ∙ resting-outside b.order_pool.mem b.order_pool.stack_top _ is_buy i b.order_pool.stack_top
            (omega arith)

    placed-share :
        (is_buy : Bool) (i : ℕ)
        → share (placed.order_pool.mem b.order_pool.stack_top) is_buy i
          ≡ (if counted is_buy i then q else 0)
    unfolding counted place set_level set_order ultra_add_to_level share on_level fill_order
        get_side
    placed-share is_buy i = ground arith

    placed-level :
        (is_buy : Bool) (i : ℕ)
        → (levels placed is_buy i).total_quantity ≡ (
            if counted is_buy i
            then add32 (levels b is_buy i).total_quantity q
            else (levels b is_buy i).total_quantity)
    unfolding counted place set_level set_order ultra_add_to_level levels fill_order
    placed-level is_buy i = ground arith

    placed-totals :
        (is_buy : Bool) (i : ℕ)
        → (levels placed is_buy i).total_quantity
          ≡ (base is_buy i + resting placed.order_pool.mem (suc b.order_pool.stack_top) is_buy i)
            % u32_mod
    unfolding resting
    placed-totals is_buy i = ground (
      arith,
      placed-level is_buy i,
      placed-share is_buy i,
      placed-old is_buy i,
      valid.totals is_buy i,
    )

    pub place-IsBook : IsBook base placed
    unfolding place levels set_level set_order ultra_add_to_level fill_order
    place-IsBook = record {
      pointers =
          Bounded-insert b.order_hash (b.order_pool.stack_top + 1) id b.order_pool.stack_top
            (λ s a e. omega (arith, valid.pointers s a e)) (omega arith);
      narrow = λ a h. ground (arith, valid.narrow a);
      totals = λ is_buy i.
          subst
            (λ n.
              (levels placed is_buy i).total_quantity
              ≡ (base is_buy i + resting placed.order_pool.mem n is_buy i) % u32_mod)
            (omega arith) (placed-totals is_buy i);
    }

  pub add-IsBook :
      (b : UltraBook) (id side q p : ℕ)
      → IsBook base b
      → q < u32_mod
      → IsBook base (ultra_add_order b id side q p)
  add-IsBook b id side q p valid fits =
      add_cases (IsBook base) b id side q p (λ _. valid)
        (λ absent room. place-IsBook b valid id side q p fits)

  pub execute-IsBook :
      (b : UltraBook) (id qty : ℕ) → IsBook base b → IsBook base (ultra_execute_order b id qty)
  unfolding ultra_execute_order
  execute-IsBook b id qty valid = elim (Option-cases (ultra_find b.order_hash id)) [
    | inl miss ↦ rw (miss, ultra_execute_order) valid
    | inr (a, found) ↦
        rw (found, ultra_execute_order)
          (execute_at-IsBook b valid a
            (find-Bounded b.order_hash b.order_pool.stack_top id a valid.pointers found) qty)
  ]

  pub delete-IsBook :
      (b : UltraBook) (id : ℕ) → IsBook base b → IsBook base (ultra_delete_order b id)
  unfolding ultra_delete_order
  delete-IsBook b id valid = elim (Option-cases (ultra_find b.order_hash id)) [
    | inl miss ↦ rw (miss, ultra_delete_order) valid
    | inr (a, found) ↦
        rw (found, ultra_delete_order)
          (forget-IsBook (retire b a) id (
            retire-IsBook b valid a
              (find-Bounded b.order_hash b.order_pool.stack_top id a valid.pointers found)))
  ]

  pub replace-IsBook :
      (b : UltraBook) (old_id new_id q p : ℕ)
      → IsBook base b
      → q < u32_mod
      → IsBook base (ultra_replace_order b old_id new_id q p)
  unfolding ultra_replace_order
  replace-IsBook b old_id new_id q p valid fits =
      elim (Option-cases (ultra_find b.order_hash old_id)) [
        | inl miss ↦ rw (miss, ultra_replace_order) valid
        | inr (a, found) ↦
            rw (found, ultra_replace_order)
              (add-IsBook (forget (retire b a) old_id) new_id (get_side (b.order_pool.mem a)) q p
                (forget-IsBook (retire b a) old_id (
                  retire-IsBook b valid a (
                    find-Bounded b.order_hash b.order_pool.stack_top old_id a valid.pointers
                      found)))
                fits)
      ]
