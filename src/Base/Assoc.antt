-- ===== src/Base/Assoc.antt =====
-- A `std::unordered_map` keyed by numbers, as a list of its entries in the order of an iteration.
use Prim.Native.Nat.{ℕ}
use mathlib.Core.Path.{◌≡◌}
use mathlib.Core.Option.{Option, none, some}
use mathlib.Core.List.{List, [], ◌∷◌}
use native.Mathlib.Omega.{arith}
use nasdaq_order_book.Base.Tests.{◌==◌, if◌then◌else◌}

module _ {ℓ} {A : Type ℓ} where
  unfoldable pub keys : List (ℕ × A) → List ℕ
  keys [] = []
  keys ((id, _) ∷ entries) = id ∷ keys entries

  unfoldable pub erase : ℕ → List (ℕ × A) → List (ℕ × A)
  erase id [] = []
  erase id (entry ∷ entries) =
      let rest = erase id entries in if id == entry.0 then rest else entry ∷ rest

  unfoldable pub lookup : ℕ → List (ℕ × A) → Option A
  lookup id [] = none
  lookup id (entry ∷ entries) =
      let rest = lookup id entries in if id == entry.0 then some entry.1 else rest

  -- An assignment to `m[id]`.
  unfoldable pub insert : ℕ → A → List (ℕ × A) → List (ℕ × A)
  insert id a [] = (id, a) ∷ []
  insert id a (entry ∷ entries) =
      let rest = insert id a entries in if id == entry.0 then (id, a) ∷ entries else entry ∷ rest

  pub lookup-erase :
      (id k : ℕ) (entries : List (ℕ × A))
      → lookup k (erase id entries) ≡ (if id == k then none else lookup k entries)
  unfolding lookup erase
  lookup-erase id k [] = ground arith
  lookup-erase id k (entry ∷ entries) = ground (arith, lookup-erase id k entries)

  pub lookup-insert :
      (id k : ℕ) (a : A) (entries : List (ℕ × A))
      → lookup k (insert id a entries) ≡ (if id == k then some a else lookup k entries)
  unfolding lookup insert
  lookup-insert id k a [] = ground arith
  lookup-insert id k a (entry ∷ entries) = ground (arith, lookup-insert id k a entries)
