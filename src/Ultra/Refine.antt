-- ===== src/Ultra/Refine.antt =====
-- A feed of events applied to an `UltraOrderBook` (include/core/apply.hpp) against the map of
-- Ultra/Spec.antt.
use nasdaq_order_book.Base.{
  ℕ, ◌≡◌, refl, ◌∙◌, inl, inr, Option-cases, arith, List, [], ◌∷◌, none, some,
}
use nasdaq_order_book.Core.Event.{ItchEvent, add, exec, cancel, delete, replace}
use nasdaq_order_book.Ultra.Order.{UltraOrder, zero_level}
use nasdaq_order_book.Ultra.Table.{ultra_find}
use nasdaq_order_book.Ultra.Table.Valid.{IsLive}
use nasdaq_order_book.Ultra.Table.Lookup.{new-IsTable}
use nasdaq_order_book.Ultra.Spec.{Orders, spec_apply}
use nasdaq_order_book.Ultra.Apply.{apply, apply_all}
use nasdaq_order_book.Ultra.Book.{UltraBook, Levels, new, uninitialised}
use nasdaq_order_book.Ultra.Book.Lifecycle.{
  view, view-none, IsOrders, execute-refines, delete-refines,
}
use nasdaq_order_book.Ultra.Book.Resting.{Bounded, find-Bounded}
use nasdaq_order_book.Ultra.Book.Renewal.{
  CanAdd, without, add-refines, replace-refines, add-IsOrders, execute-IsOrders, delete-IsOrders,
  replace-IsOrders,
}

-- The identifiers of the event are live, and what it adds has room.
abbrev pub Admits : UltraBook → ItchEvent → Type 0
Admits b (add id side q p sym) = IsLive id × CanAdd b id
Admits b (exec id q) = IsLive id
Admits b (cancel id q) = IsLive id
Admits b (delete id) = IsLive id
Admits b (replace old_id new_id q p sym) =
    IsLive old_id
    × IsLive new_id
    × ((a : ℕ) → ultra_find b.order_hash old_id ≡ some a → CanAdd (without b old_id a) new_id)

abbrev pub AdmitsAll : UltraBook → List ItchEvent → Type 0
AdmitsAll b [] = Unit {0}
AdmitsAll b (e ∷ es) = Admits b e × AdmitsAll (apply e b) es

pub apply-IsOrders :
    (e : ItchEvent) (b : UltraBook) → Admits b e → IsOrders b → IsOrders (apply e b)
unfolding apply
apply-IsOrders (add id side q p sym) b h valid = add-IsOrders b id side q p h.0 h.1 valid
apply-IsOrders (exec id q) b h valid = execute-IsOrders b id q valid
apply-IsOrders (cancel id q) b h valid = execute-IsOrders b id q valid
apply-IsOrders (delete id) b h valid = delete-IsOrders b id h valid
apply-IsOrders (replace old_id new_id q p sym) b h valid =
    replace-IsOrders b valid old_id new_id q p h.0 h.1 h.2

pub apply-refines :
    (e : ItchEvent) (b : UltraBook)
    → Admits b e
    → IsOrders b
    → (j : ℕ) → IsLive j
    → view (apply e b) j ≡ spec_apply e (view b) j
unfolding apply
apply-refines (add id side q p sym) b h valid j lj = add-refines b valid id h.0 h.1 side q p j lj
apply-refines (exec id q) b h valid j lj = execute-refines b valid id h q j lj
apply-refines (cancel id q) b h valid j lj = execute-refines b valid id h q j lj
apply-refines (delete id) b h valid j lj = delete-refines b valid id h j lj
apply-refines (replace old_id new_id q p sym) b h valid j lj =
    replace-refines b valid old_id new_id q p h.0 h.1 h.2 j lj

-- Two maps that agree on the live identifiers.
abbrev Agree : Orders → Orders → Type 0
Agree m n = (j : ℕ) → IsLive j → m j ≡ n j

spec_apply-Agree :
    (e : ItchEvent) (b : UltraBook) (m n : Orders)
    → Admits b e
    → Agree m n
    → Agree (spec_apply e m) (spec_apply e n)
spec_apply-Agree (add id side q p sym) b m n h same j lj = ground (arith, same j lj, same id h.0)
spec_apply-Agree (exec id q) b m n h same j lj = ground (arith, same j lj, same id h)
spec_apply-Agree (cancel id q) b m n h same j lj = ground (arith, same j lj, same id h)
spec_apply-Agree (delete id) b m n h same j lj = ground (arith, same j lj)
spec_apply-Agree (replace old_id new_id q p sym) b m n h same j lj =
    ground (arith, same j lj, same old_id h.0, same new_id h.1)

unfoldable pub spec_all : List ItchEvent → Orders → Orders
spec_all [] m = m
spec_all (e ∷ es) m = spec_all es (spec_apply e m)

spec_all-Agree :
    (es : List ItchEvent) (b : UltraBook) (m n : Orders)
    → AdmitsAll b es
    → Agree m n
    → Agree (spec_all es m) (spec_all es n)
unfolding spec_all
spec_all-Agree [] b m n h same = same
spec_all-Agree (e ∷ es) b m n h same =
    spec_all-Agree es (apply e b) (spec_apply e m) (spec_apply e n) h.1
      (spec_apply-Agree e b m n h.0 same)

apply_all-refines :
    (es : List ItchEvent) (b : UltraBook)
    → AdmitsAll b es
    → IsOrders b
    → Agree (view (apply_all es b)) (spec_all es (view b))
unfolding apply_all spec_all
apply_all-refines [] b h valid j lj = refl
apply_all-refines (e ∷ es) b h valid j lj =
    apply_all-refines es (apply e b) h.1 (apply-IsOrders e b h.0 valid) j lj
    ∙ spec_all-Agree es (apply e b) (view (apply e b)) (spec_apply e (view b)) h.1
        (apply-refines e b h.0 valid) j lj

module _ (bids asks : Levels) (garbage : ℕ → UltraOrder) (capacity : ℕ) where
  nothing : Bounded (uninitialised bids asks garbage capacity).order_hash 0
  unfolding uninitialised new
  nothing s a e = absurd (ground arith)

  pub uninitialised-IsOrders : IsOrders (uninitialised bids asks garbage capacity)
  unfolding uninitialised new
  uninitialised-IsOrders = record {
    table = new-IsTable;
    bounded = nothing;
    distinct = λ i j a li lj fi fj. absurd (
        omega (
          arith,
          find-Bounded (uninitialised bids asks garbage capacity).order_hash 0 i a nothing fi,
        ));
  }

  view-uninitialised : (j : ℕ) → view (uninitialised bids asks garbage capacity) j ≡ none
  view-uninitialised j =
      elim (Option-cases (ultra_find (uninitialised bids asks garbage capacity).order_hash j)) [
        | inl miss ↦ view-none (uninitialised bids asks garbage capacity) j miss
        | inr (a, found) ↦ absurd (
            omega (
              arith,
              find-Bounded (uninitialised bids asks garbage capacity).order_hash 0 j a nothing
                  found,
            ))
      ]

  -- Whatever the memory of a book held: after any feed of live identifiers that never meets an exhausted pool or
  -- a full probe path, the book holds under each live identifier the order that the abstract map holds: its side, what is
  -- left of its quantity, and its price.
  pub feed_refines :
      (es : List ItchEvent) (j : ℕ)
      → AdmitsAll (uninitialised bids asks garbage capacity) es
      → IsLive j
      → view (apply_all es (uninitialised bids asks garbage capacity)) j ≡ spec_all es (λ _. none) j
  feed_refines es j h lj =
      apply_all-refines es (uninitialised bids asks garbage capacity) h uninitialised-IsOrders j lj
      ∙ spec_all-Agree es (uninitialised bids asks garbage capacity)
          (view (uninitialised bids asks garbage capacity)) (λ _. none) h
          (λ i _. view-uninitialised i) j lj

pub new-IsOrders : (garbage : ℕ → UltraOrder) (capacity : ℕ) → IsOrders (new garbage capacity)
unfolding uninitialised new
new-IsOrders = uninitialised-IsOrders (λ i. zero_level) (λ i. zero_level)
