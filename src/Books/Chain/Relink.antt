-- ===== src/Books/Chain/Relink.antt =====
-- Lists that are linked elsewhere at an end, that lose an order, and that gain one.
use nasdaq_order_book.Base.{
  true-false, has, Distinct, Distinct-split, ℕ, ◌≡◌, refl, sym, ap, ◌∙◌, inl, inr, true, false,
  Option-cases, ℕ-cases, arith, none, some, List, [], ◌∷◌, ◌++◌,
}
use nasdaq_order_book.Books.Memory.{Ptr, Storage, link_next, link_prev, unlink}
use nasdaq_order_book.Books.Chain.{first, last, Seg, frame, Seg-split, Seg-join}

pub last-has :
    (before : Ptr) (a z : ℕ) (xs : List ℕ) → last before (a ∷ xs) ≡ some z → has z (a ∷ xs) ≡ true
last-has before a z [] h = ground arith
last-has before a z (b ∷ xs) h = ground (arith, last-has (some a) b z xs h)

-- What the last of `xs` does not meet is as it was.
link_last :
    (m : Storage) (xs : List ℕ) (new : Ptr) (z : ℕ)
    → has z xs ≡ false
    → link_next m (last none xs) new z ≡ m z
unfolding link_next
link_last m [] new z out = refl
link_last m (x ∷ xs) new z out = elim (Option-cases (last (some x) xs)) [
  | inl h ↦ rw (h) refl
  | inr h ↦ rw (h.1) (ground (arith, out, last-has none x h.0 xs h.1))
]

-- The end of a list is linked elsewhere.
pub set_next :
    (m : Storage) (before : Ptr) (a : ℕ) (xs : List ℕ) (after new : Ptr)
    → Distinct (a ∷ xs)
    → Seg m before (a ∷ xs) after
    → Seg (link_next m (last before (a ∷ xs)) new) before (a ∷ xs) new
unfolding link_next
set_next m before a [] after new distinct (back, next, seg) = (ground arith, ground arith, tt)
set_next m before a (b ∷ xs) after new distinct (back, next, seg) =
    let n = link_next m (last before (a ∷ b ∷ xs)) new in
    let here : n a ≡ m a = link_last m (b ∷ xs) new a distinct.0 in
    (rw (here) back, rw (here) next, set_next m (some a) b xs after new distinct.1 seg)

-- The beginning of a list is linked elsewhere.
pub set_prev :
    (m : Storage) (before new : Ptr) (a : ℕ) (xs : List ℕ) (after : Ptr)
    → Distinct (a ∷ xs)
    → Seg m before (a ∷ xs) after
    → Seg (link_prev m (some a) new) new (a ∷ xs) after
unfolding link_prev
set_prev m before new a xs after distinct (back, next, seg) =
    let n = link_prev m (some a) new in
    (ground arith, ground arith, frame m n (some a) xs after (λ b h. ground (arith, distinct)) seg)

-- The end of a list, which may be empty, is linked elsewhere.
relink_last :
    (m : Storage) (xs : List ℕ) (after new : Ptr)
    → Distinct xs
    → Seg m none xs after
    → Seg (link_next m (last none xs) new) none xs new
relink_last m [] after new distinct seg = tt
relink_last m (x ∷ xs) after new distinct seg = set_next m none x xs after new distinct seg

-- The beginning of a list, which may be empty, is linked elsewhere, and what stands before it stays.
relink_first :
    (m : Storage) (xs ys : List ℕ) (before new : Ptr)
    → Distinct ys
    → ((z : ℕ) → has z xs ≡ true → has z ys ≡ false)
    → Seg m none xs (first ys none)
    → Seg m before ys none
    → let n = link_prev m (first ys none) new in Seg n none xs (first ys none) × Seg n new ys none
unfolding link_prev
relink_first m xs [] before new distinct apart front back = (front, tt)
relink_first m xs (y ∷ ys) before new distinct apart front back = (
  frame m (link_prev m (some y) new) none xs (some y) (λ z i. ground (arith, apart z i)) front,
  set_prev m before new y ys none distinct back,
)

-- A list from which `a` is unlinked is the list without `a`.
pub unlink-Seg :
    (m : Storage) (xs ys : List ℕ) (a : ℕ)
    → Distinct (xs ++ a ∷ ys)
    → Seg m none (xs ++ a ∷ ys) none
    → Seg (unlink m a) none (xs ++ ys) none
unfolding unlink
unlink-Seg m xs ys a distinct seg =
    let (dx, dy, apart) = Distinct-split xs (a ∷ ys) distinct in
    let (front, (before, after, back)) = Seg-split m none xs (a ∷ ys) none seg in
    let outside : has a xs ≡ false = ground (arith, apart a) in
    let away : (z : ℕ) → has z xs ≡ true → has z ys ≡ false = λ z i. ground (arith, apart z i) in
    let n = link_next m (last none xs) (first ys none) in
    let here : n a ≡ m a = link_last m xs (first ys none) a outside in
    let moved =
      relink_first n xs ys (some a) (last none xs) dy.1 away
        (relink_last m xs (some a) (first ys none) dx front)
        (frame m n (some a) ys none
          (λ z i. link_last m xs (first ys none) z (ground (arith, apart z))) back) in
    rw (before, after, here, before, after)
      (Seg-join (link_prev n (first ys none) (last none xs)) none xs ys none moved.0 moved.1)

link_first :
    (m : Storage) (ys : List ℕ) (new : Ptr) (z : ℕ)
    → has z ys ≡ false
    → link_prev m (first ys none) new z ≡ m z
unfolding link_prev
link_first m [] new z out = refl
link_first m (y ∷ ys) new z out = ground (arith, out)

-- A list to whose end `a` is linked.
pub append-Seg :
    (m : Storage) (x : ℕ) (xs : List ℕ) (a : ℕ)
    → Distinct (x ∷ xs)
    → has a (x ∷ xs) ≡ false
    → (m a).next ≡ none
    → Seg m none (x ∷ xs) none
    → Seg
        (link_prev (link_next m (last none (x ∷ xs)) (some a)) (some a) (last none (x ∷ xs)))
        none
        (x ∷ xs ++ a ∷ [])
        none
unfolding link_prev
append-Seg m x xs a distinct out free seg =
    let n = link_next m (last none (x ∷ xs)) (some a) in
    let here : n a ≡ m a = link_last m (x ∷ xs) (some a) a out in
    let apart : (z : ℕ) → has z (x ∷ xs) ≡ true → has z (a ∷ []) ≡ false = λ z i.
      elim (ℕ-cases z a) [
        | inl eq ↦ absurd (true-false (sym i ∙ ap (λ k. has k (x ∷ xs)) eq ∙ out))
        | inr other ↦ ground arith
      ] in
    let moved =
      relink_first n (x ∷ xs) (a ∷ []) (n a).prev (last none (x ∷ xs)) (refl, tt) apart
        (relink_last m (x ∷ xs) none (some a) distinct seg) (refl, rw (here) free, tt) in
    Seg-join (link_prev n (some a) (last none (x ∷ xs))) none (x ∷ xs) (a ∷ []) none moved.0 moved.1

-- What is unlinked keeps its own links.
pub unlink_self :
    (m : Storage) (xs ys : List ℕ) (a : ℕ)
    → Distinct (xs ++ a ∷ ys)
    → Seg m none (xs ++ a ∷ ys) none
    → unlink m a a ≡ m a
unfolding unlink
unlink_self m xs ys a distinct seg =
    let (dx, dy, apart) = Distinct-split xs (a ∷ ys) distinct in
    let (front, (before, after, back)) = Seg-split m none xs (a ∷ ys) none seg in
    let outside : has a xs ≡ false = ground (arith, apart a) in
    let n = link_next m (last none xs) (first ys none) in
    let here : n a ≡ m a = link_last m xs (first ys none) a outside in
    let out : unlink m a ≡ link_prev n (first ys none) (last none xs) =
      rw (before, after, here, before, after) refl in
    ap (λ (k : Storage). k a) out ∙ (link_first n ys (last none xs) a dy.0 ∙ here)
