-- ===== src/Books/Index/Step.antt =====
-- What both books do to the hash map and the pool, their levels and links left aside, and that it
-- refines the map of Books/Spec.antt.
use nasdaq_order_book.Base.{
  ℕ, ◌+◌, ◌-◌, ◌≤◌, ◌≡◌, refl, ap, ◌∙◌, inl, inr, Bool-cases, arith, none, some, ◌==◌,
  if◌then◌else◌, update,
}
use nasdaq_order_book.Base.Assoc.{lookup, insert, erase}
use nasdaq_order_book.Core.Event.{ItchEvent, add, exec, cancel, delete, replace}
use nasdaq_order_book.Ultra.Spec.{Orders, spec_delete}
use nasdaq_order_book.Books.Memory.{
  Ptr, Order, Storage, fresh, content, SameData, SameData-trans, update-SameData,
}
use nasdaq_order_book.Books.Spec.{spec_apply, spec_add, spec_execute, spec_replace}
use nasdaq_order_book.Books.Index.{
  Entries, IsIndex, view, shown-SameData, IsIndex-SameData, view-write, view-insert, view-erase,
  view-rename, insert-IsIndex, write-IsIndex, erase-IsIndex, rename-IsIndex,
}

pub record Table : Type 0 where
  pub entries : Entries
  pub storage : Storage
  pub index : ℕ

abbrev pub view_of : Table → Orders
view_of t = view t.entries t.storage

abbrev pub IsTable : Table → Type 0
IsTable t = IsIndex t.entries t.storage t.index

-- Two tables that differ at most in the links of the orders.
pub record SameTable (t u : Table) : Type 0 where
  pub entries : t.entries ≡ u.entries
  pub memory : SameData t.storage u.storage
  pub index : t.index ≡ u.index

pub SameTable-refl : (t : Table) → SameTable t t
SameTable-refl t = record { entries = refl; memory = λ a. (refl, refl); index = refl }

pub SameTable-trans : (t u v : Table) → SameTable t u → SameTable u v → SameTable t v
SameTable-trans t u v h k = record {
  entries = h.entries ∙ k.entries;
  memory = SameData-trans t.storage u.storage v.storage h.memory k.memory;
  index = h.index ∙ k.index;
}

-- An order is written in two such tables.
pub write-SameTable :
    (t u : Table) (a : ℕ) (o w : Order)
    → SameTable t u
    → o.id ≡ w.id
    → content o ≡ content w
    → SameTable
        (record t { storage = update t.storage a o })
        (record u { storage = update u.storage a w })
write-SameTable t u a o w same own shown = record {
  entries = same.entries;
  memory = update-SameData t.storage u.storage a o w same.memory own shown;
  index = same.index;
}

-- The entries of two such tables are changed alike.
pub change-SameTable :
    (t u : Table) (f : Entries → Entries)
    → SameTable t u
    → SameTable (record t { entries = f t.entries }) (record u { entries = f u.entries })
change-SameTable t u f same = record {
  entries = ap f same.entries;
  memory = same.memory;
  index = same.index;
}

abbrev add_new : Table → ℕ → ℕ → ℕ → ℕ → Table
add_new t id side q p = record {
  entries = insert id t.index t.entries;
  storage = update t.storage t.index (fresh id side q p);
  index = t.index + 1;
}

abbrev pub lowered : Table → ℕ → ℕ → Table
lowered t a q = record t {
  storage = update t.storage a (record (t.storage a) { quantity = (t.storage a).quantity - q });
}

abbrev pub dropped : Table → ℕ → Table
dropped t id = record t { entries = erase id t.entries }

abbrev renamed : Table → ℕ → ℕ → ℕ → ℕ → ℕ → Table
renamed t a old_id new_id q p = record t {
  entries = insert new_id a (erase old_id t.entries);
  storage = update t.storage a (fresh new_id (t.storage a).side q p);
}

-- The operations, given what the hash map answers.
unfoldable pub step_add : Table → Ptr → ℕ → ℕ → ℕ → ℕ → Table
step_add t (some _) id side q p = t
step_add t none id side q p = add_new t id side q p

unfoldable pub step_execute : Table → Ptr → ℕ → ℕ → Table
step_execute t none id q = t
step_execute t (some a) id q =
    if (t.storage a).quantity - q == 0 then dropped (lowered t a q) id else lowered t a q

unfoldable pub step_delete : Table → Ptr → ℕ → Table
step_delete t none id = t
step_delete t (some _) id = dropped t id

unfoldable pub step_replace : Table → Ptr → ℕ → ℕ → ℕ → ℕ → Table
step_replace t none old_id new_id q p = t
step_replace t (some a) old_id new_id q p = renamed t a old_id new_id q p

unfoldable pub step : ItchEvent → Table → Table
step (add id side q p _) t = step_add t (lookup id t.entries) id side q p
step (exec id q) t = step_execute t (lookup id t.entries) id q
step (cancel id q) t = step_execute t (lookup id t.entries) id q
step (delete id) t = step_delete t (lookup id t.entries) id
step (replace old_id new_id q p _) t = step_replace t (lookup old_id t.entries) old_id new_id q p

-- A table that is well formed and shows `m`.
abbrev pub Refines : Table → Orders → Type 0
Refines t m = IsTable t × ((j : ℕ) → view_of t j ≡ m j)

module _ (t : Table) (valid : IsTable t) where
  step_add-Refines :
      (r : Ptr) (id side q p : ℕ)
      → lookup id t.entries ≡ r
      → Refines (step_add t r id side q p) (spec_add (view_of t) id side q p)
  unfolding step_add fresh
  step_add-Refines none id side q p unused =
      let o = fresh id side q p in
      (
        insert-IsIndex t.entries t.storage t.index valid id o refl,
        λ j. rw (view-insert t.entries t.storage t.index valid id o j, unused) (ground arith),
      )
  step_add-Refines (some a) id side q p found = (valid, λ j. rw (found) (ground (arith, found)))

  step_execute-Refines :
      (r : Ptr) (id q : ℕ)
      → lookup id t.entries ≡ r
      → Refines (step_execute t r id q) (spec_execute (view_of t) id q)
  unfolding step_execute
  step_execute-Refines none id q unused = (valid, λ j. rw (unused) (ground (arith, unused)))
  step_execute-Refines (some a) id q found =
      let o = t.storage a in
      let written = record o { quantity = o.quantity - q } in
      let m = update t.storage a written in
      let kept = write-IsIndex t.entries t.storage t.index valid a written refl in
      let seen = λ (j : ℕ). view-write t.entries t.storage t.index valid id a written j found in
      elim (Bool-cases (o.quantity - q == 0)) [
        | inl empty ↦ rw (empty) (
          erase-IsIndex t.entries m t.index kept id,
          λ j. rw (found, view-erase t.entries m t.index kept id j, seen j, empty) (ground arith),
        )
        | inr left ↦ rw (left) (kept, λ j. rw (found, seen j, left) (ground arith))
      ]

  step_delete-Refines :
      (r : Ptr) (id : ℕ)
      → lookup id t.entries ≡ r
      → Refines (step_delete t r id) (spec_delete (view_of t) id)
  unfolding step_delete
  step_delete-Refines none id unused = (valid, λ j. ground (arith, unused))
  step_delete-Refines (some a) id found = (
    erase-IsIndex t.entries t.storage t.index valid id,
    view-erase t.entries t.storage t.index valid id,
  )

  step_replace-Refines :
      (r : Ptr) (old_id new_id q p : ℕ)
      → lookup old_id t.entries ≡ r
      → Refines (step_replace t r old_id new_id q p) (spec_replace (view_of t) old_id new_id q p)
  unfolding step_replace fresh
  step_replace-Refines none old_id new_id q p unused = (valid, λ j. rw (unused) refl)
  step_replace-Refines (some a) old_id new_id q p found =
      let o = fresh new_id (t.storage a).side q p in
      (
        rename-IsIndex t.entries t.storage t.index valid old_id new_id a o found refl,
        λ j. rw (found) (view-rename t.entries t.storage t.index valid old_id new_id a o j found),
      )

pub step-Refines :
    (e : ItchEvent) (t : Table) → IsTable t → Refines (step e t) (spec_apply e (view_of t))
unfolding step
step-Refines (add id side q p _) t valid =
    step_add-Refines t valid (lookup id t.entries) id side q p refl
step-Refines (exec id q) t valid = step_execute-Refines t valid (lookup id t.entries) id q refl
step-Refines (cancel id q) t valid = step_execute-Refines t valid (lookup id t.entries) id q refl
step-Refines (delete id) t valid = step_delete-Refines t valid (lookup id t.entries) id refl
step-Refines (replace old_id new_id q p _) t valid =
    step_replace-Refines t valid (lookup old_id t.entries) old_id new_id q p refl

pub SameTable-Refines : (t u : Table) (m : Orders) → SameTable t u → Refines u m → Refines t m
SameTable-Refines t u m same refines = (
  rw (same.entries, same.index)
      (IsIndex-SameData u.entries t.storage u.storage u.index same.memory refines.0),
  λ j.
      rw (same.entries)
        (shown-SameData t.storage u.storage same.memory (lookup j u.entries) ∙ refines.1 j),
)

-- An event takes at most one order from the pool.
pub step-index : (e : ItchEvent) (t : Table) → (step e t).index ≤ t.index + 1
unfolding step step_add step_execute step_delete step_replace
step-index (add id side q p _) t = ground arith
step-index (exec id q) t = ground arith
step-index (cancel id q) t = ground arith
step-index (delete id) t = ground arith
step-index (replace old_id new_id q p _) t = ground arith
