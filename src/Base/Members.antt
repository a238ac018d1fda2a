-- ===== src/Base/Members.antt =====
-- Lists of numbers without repetition.
use Prim.Native.Nat.{ℕ}
use mathlib.Core.Path.{◌≡◌, refl}
use mathlib.Core.Logic.{◌≢◌, inl, inr}
use mathlib.Core.Bool.{Bool, true, false, ◌||◌}
use mathlib.Core.List.{List, [], ◌∷◌, ◌++◌}
use native.Mathlib.Omega.{arith}
use nasdaq_order_book.Base.Tests.{◌==◌, ℕ-cases}

pub true-false : true ≢ false
true-false h = ground arith

abbrev pub has : ℕ → List ℕ → Bool
has x [] = false
has x (a ∷ xs) = (x == a) || has x xs

abbrev pub Distinct : List ℕ → Type 0
Distinct [] = Unit {0}
Distinct (a ∷ xs) = (has a xs ≡ false) × Distinct xs

pub has-append : (z : ℕ) (xs ys : List ℕ) → has z (xs ++ ys) ≡ (has z xs || has z ys)
has-append z [] ys = refl
has-append z (x ∷ xs) ys = ground (arith, has-append z xs ys)

pub Distinct-split :
    (xs ys : List ℕ)
    → Distinct (xs ++ ys)
    → Distinct xs × Distinct ys × ((z : ℕ) → has z xs ≡ true → has z ys ≡ false)
Distinct-split [] ys h = (tt, h, λ z i. ground arith)
Distinct-split (x ∷ xs) ys (out, h) =
    let rest = Distinct-split xs ys h in
    let outside = has-append x xs ys in
    (
      (ground arith, rest.0),
      rest.1,
      λ z i. elim (ℕ-cases z x) [
        | inl eq ↦ rw (eq) (ground arith)
        | inr other ↦ rest.2 z (ground arith)
      ],
    )

pub Distinct-append :
    (xs : List ℕ) (a : ℕ) → Distinct xs → has a xs ≡ false → Distinct (xs ++ a ∷ [])
Distinct-append [] a distinct out = (refl, tt)
Distinct-append (x ∷ xs) a (apart, distinct) out = (
  rw (has-append x xs (a ∷ [])) (ground (arith, apart, out)),
  Distinct-append xs a distinct (ground (arith, out)),
)

pub Distinct-remove :
    (xs : List ℕ) (a : ℕ) (ys : List ℕ) → Distinct (xs ++ a ∷ ys) → Distinct (xs ++ ys)
Distinct-remove [] a ys distinct = distinct.1
Distinct-remove (x ∷ xs) a ys (apart, distinct) = (
  rw (has-append x xs ys) (ground (arith, rw (has-append x xs (a ∷ ys)) at apart)),
  Distinct-remove xs a ys distinct,
)
