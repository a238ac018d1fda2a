-- ===== src/Books/Index/Feed.antt =====
-- A book over the pool as the feed sees it: its table, and that an event changes it as
-- Books/Index/Step.antt says while the pool has room. What follows holds for each such book.
use nasdaq_order_book.Base.{ℕ, ◌+◌, ◌<◌, ◌≤◌, ◌≡◌, refl, ◌∙◌, arith, List, [], ◌∷◌, length}
use nasdaq_order_book.Core.Event.{ItchEvent, add, exec, cancel, delete, replace}
use nasdaq_order_book.Ultra.Spec.{Orders}
use nasdaq_order_book.Books.Memory.{pool_size}
use nasdaq_order_book.Books.Spec.{spec_apply, spec_all}
use nasdaq_order_book.Books.Index.Step.{
  Table, IsTable, SameTable, view_of, step, step-Refines, step-index, SameTable-Refines,
}

pub record Book (State : Type 0) : Type 0 where
  pub table : State → Table
  pub apply : ItchEvent → State → State
  pub law :
      (e : ItchEvent) (s : State)
      → (table s).index < pool_size
      → SameTable (table (apply e s)) (step e (table s))

abbrev Agree : Orders → Orders → Type 0
Agree m n = (j : ℕ) → m j ≡ n j

spec_apply-Agree :
    (e : ItchEvent) (m n : Orders) → Agree m n → Agree (spec_apply e m) (spec_apply e n)
spec_apply-Agree (add id side q p _) m n same j = ground (arith, same j, same id)
spec_apply-Agree (exec id q) m n same j = ground (arith, same j, same id)
spec_apply-Agree (cancel id q) m n same j = ground (arith, same j, same id)
spec_apply-Agree (delete id) m n same j = ground (arith, same j)
spec_apply-Agree (replace old_id new_id q p _) m n same j = ground (arith, same j, same old_id)

spec_all-Agree :
    (es : List ItchEvent) (m n : Orders) → Agree m n → Agree (spec_all es m) (spec_all es n)
unfolding spec_all
spec_all-Agree [] m n same = same
spec_all-Agree (e ∷ es) m n same =
    spec_all-Agree es (spec_apply e m) (spec_apply e n) (spec_apply-Agree e m n same)

module _ {State : Type 0} (b : Book State) where
  unfoldable pub feed : List ItchEvent → State → State
  feed [] s = s
  feed (e ∷ es) s = feed es (b.apply e s)

  pub feed-refines :
      (es : List ItchEvent) (s : State)
      → IsTable (b.table s)
      → (b.table s).index + length es ≤ pool_size
      → (j : ℕ) → view_of (b.table (feed es s)) j ≡ spec_all es (view_of (b.table s)) j
  unfolding feed spec_all
  feed-refines [] s valid room j = refl
  feed-refines (e ∷ es) s valid room j =
      let same = b.law e s (omega (arith, room)) in
      let now =
        SameTable-Refines (b.table (b.apply e s)) (step e (b.table s))
          (spec_apply e (view_of (b.table s))) same (step-Refines e (b.table s) valid) in
      feed-refines es (b.apply e s) now.0
        (omega (arith, room, step-index e (b.table s), same.index)) j
      ∙ spec_all-Agree es (view_of (b.table (b.apply e s))) (spec_apply e (view_of (b.table s)))
          now.1 j
