-- ===== src/Books/Chain.antt =====
-- The doubly linked lists of orders that the levels hold.
pub mod Relink
use nasdaq_order_book.Base.{
  has, Distinct, ℕ, ◌≡◌, ◌≢◌, refl, sym, ◌∙◌, inl, inr, Option-cases, Bool, true, false, ◌||◌,
  Bool-cases, ℕ-cases, arith, none, some, List, [], ◌∷◌, ◌++◌, ◌==◌, update,
}
use nasdaq_order_book.Books.Memory.{Ptr, Order, Storage, link_next, link_prev, unlink}

-- The first of `xs`, or what comes after them.
abbrev pub first : List ℕ → Ptr → Ptr
first [] after = after
first (a ∷ xs) after = some a

-- The last of `xs`, or what comes before them.
abbrev pub last : Ptr → List ℕ → Ptr
last before [] = before
last before (a ∷ xs) = last (some a) xs

-- The orders `xs` are linked both ways, with these neighbours at the ends.
abbrev pub Seg : Storage → Ptr → List ℕ → Ptr → Type 0
Seg m before [] after = Unit {0}
Seg m before (a ∷ xs) after =
    ((m a).prev ≡ before) × ((m a).next ≡ first xs after) × Seg m (some a) xs after

pub frame :
    (m n : Storage) (before : Ptr) (xs : List ℕ) (after : Ptr)
    → ((a : ℕ) → has a xs ≡ true → n a ≡ m a)
    → Seg m before xs after
    → Seg n before xs after
frame m n before [] after same seg = tt
frame m n before (a ∷ xs) after same (back, next, seg) =
    let here : n a ≡ m a = same a (ground arith) in
    (rw (here) back, rw (here) next, frame m n (some a) xs after (λ b h. same b (ground arith)) seg)

pub Seg-split :
    (m : Storage) (before : Ptr) (xs ys : List ℕ) (after : Ptr)
    → Seg m before (xs ++ ys) after
    → Seg m before xs (first ys after) × Seg m (last before xs) ys after
Seg-split m before [] ys after seg = (tt, seg)
Seg-split m before (a ∷ []) ys after (back, next, seg) = ((back, next, tt), seg)
Seg-split m before (a ∷ b ∷ xs) ys after (back, next, seg) =
    let rest = Seg-split m (some a) (b ∷ xs) ys after seg in ((back, next, rest.0), rest.1)

pub Seg-join :
    (m : Storage) (before : Ptr) (xs ys : List ℕ) (after : Ptr)
    → Seg m before xs (first ys after)
    → Seg m (last before xs) ys after
    → Seg m before (xs ++ ys) after
Seg-join m before [] ys after front back = back
Seg-join m before (a ∷ []) ys after (p, n, _) back = (p, n, back)
Seg-join m before (a ∷ b ∷ xs) ys after (p, n, front) back =
    (p, n, Seg-join m (some a) (b ∷ xs) ys after front back)
