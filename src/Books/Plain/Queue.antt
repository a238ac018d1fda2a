-- ===== src/Books/Plain/Queue.antt =====
-- The levels of an `OrderBook` are queues: an order joins at the end, leaves from anywhere, and the
-- quantity of the level is that of its orders.
use nasdaq_order_book.Base.{
  has, Distinct, Distinct-split, Distinct-append, Distinct-remove, ℕ, ◌+◌, ◌%◌, ◌<◌, ◌≡◌, refl, sym,
  ap, ◌∙◌, inl, inr, false, Option-cases, arith, none, some, List, [], ◌∷◌, ◌++◌, if◌then◌else◌,
  add32, sub32, u32_mod,
}
use nasdaq_order_book.Books.Memory.{
  Ptr, Storage, link_next, link_prev, unlink, SameData, SameData-trans, link_next-SameData,
  link_prev-SameData, unlink-SameData,
}
use nasdaq_order_book.Books.Chain.{first, last, Seg, Seg-split}
use nasdaq_order_book.Books.Chain.Relink.{unlink-Seg, unlink_self, append-Seg, last-has}
use nasdaq_order_book.Books.Plain.{PriceLevel, append_links, append, is_at, detach}

-- What the orders hold together.
abbrev pub held : Storage → List ℕ → ℕ
held m [] = 0
held m (a ∷ xs) = (m a).quantity + held m xs

-- The level holds the orders `xs`, the first of which came first.
pub record IsQueue (m : Storage) (l : PriceLevel) (xs : List ℕ) : Type 0 where
  pub head : l.head ≡ first xs none
  pub tail : l.tail ≡ last none xs
  pub distinct : Distinct xs
  pub linked : Seg m none xs none
  pub total : l.quantity ≡ held m xs % u32_mod

pub held-SameData : (m n : Storage) → SameData m n → (xs : List ℕ) → held m xs ≡ held n xs
held-SameData m n same [] = refl
held-SameData m n same (a ∷ xs) = ground (arith, same a, held-SameData m n same xs)

pub held-append : (m : Storage) (xs ys : List ℕ) → held m (xs ++ ys) ≡ held m xs + held m ys
held-append m [] ys = omega arith
held-append m (a ∷ xs) ys = omega (arith, held-append m xs ys)

last-append : (before : Ptr) (xs : List ℕ) (a : ℕ) → last before (xs ++ a ∷ []) ≡ some a
last-append before [] a = refl
last-append before (x ∷ xs) a = last-append (some x) xs a

append-total :
    (m n : Storage) (t : ℕ) (xs : List ℕ) (a : ℕ)
    → SameData n m
    → t ≡ held m xs % u32_mod
    → add32 t (m a).quantity ≡ held n (xs ++ a ∷ []) % u32_mod
append-total m n t xs a same total = omega (
  arith,
  total,
  held-append n xs (a ∷ []),
  held-SameData n m same xs,
  ap (λ o. o.quantity) (same a).1,
)

-- An order with no neighbours that joins a level becomes its last.
pub append-IsQueue :
    (m : Storage) (l : PriceLevel) (xs : List ℕ) (a : ℕ)
    → (m a).next ≡ none
    → (m a).prev ≡ none
    → has a xs ≡ false
    → IsQueue m l xs
    → IsQueue (append_links m a l) (append a (m a).quantity l) (xs ++ a ∷ [])
unfolding append_links append
append-IsQueue m l [] a next prev out queue = rw (queue.head) (record {
  head = refl;
  tail = refl;
  distinct = (refl, tt);
  linked = (prev, next, tt);
  total = append-total m m l.quantity [] a (λ b. (refl, refl)) queue.total;
})
append-IsQueue m l (x ∷ xs) a next prev out queue =
    rw (queue.head, queue.tail)
      (record {
        head = refl;
        tail = sym (last-append (some x) xs a);
        distinct = Distinct-append (x ∷ xs) a queue.distinct out;
        linked = append-Seg m x xs a queue.distinct out next queue.linked;
        total =
            append-total m
              (link_prev (link_next m (last none (x ∷ xs)) (some a)) (some a) (last none (x ∷ xs)))
              l.quantity (x ∷ xs) a
              (SameData-trans
                (link_prev (link_next m (last none (x ∷ xs)) (some a)) (some a)
                  (last none (x ∷ xs)))
                (link_next m (last none (x ∷ xs)) (some a)) m
                (link_prev-SameData (link_next m (last none (x ∷ xs)) (some a)) (some a)
                  (last none (x ∷ xs)))
                (link_next-SameData m (last none (x ∷ xs)) (some a)))
              queue.total;
      })

last-split : (before : Ptr) (xs ys : List ℕ) → last before (xs ++ ys) ≡ last (last before xs) ys
last-split before [] ys = refl
last-split before (x ∷ xs) ys = last-split (some x) xs ys

-- The new head of a level that loses `a`.
head_without :
    (head next : Ptr) (xs : List ℕ) (a : ℕ) (ys : List ℕ)
    → has a xs ≡ false
    → head ≡ first (xs ++ a ∷ ys) none
    → next ≡ first ys none
    → (if is_at head a then next else head) ≡ first (xs ++ ys) none
unfolding is_at
head_without head next [] a ys out h k = rw (h) (ground (arith, k))
head_without head next (x ∷ xs) a ys out h k = rw (h) (ground (arith, out))

-- The new tail of a level that loses `a`.
tail_without :
    (tail prev : Ptr) (xs : List ℕ) (a : ℕ) (ys : List ℕ)
    → has a ys ≡ false
    → tail ≡ last none (xs ++ a ∷ ys)
    → prev ≡ last none xs
    → (if is_at tail a then prev else tail) ≡ last none (xs ++ ys)
unfolding is_at
tail_without tail prev xs a [] out h k =
    let end : tail ≡ some a = h ∙ last-split none xs (a ∷ []) in
    rw (end, last-split none xs []) (ground (arith, k))
tail_without tail prev xs a (y ∷ ys) out h k =
    let end : tail ≡ last (some y) ys = h ∙ last-split none xs (a ∷ y ∷ ys) in
    rw (end, last-split none xs (y ∷ ys))
      (elim (Option-cases (last (some y) ys)) [
        | inl gone ↦ rw (gone) refl
        | inr found ↦ rw (found.1) (ground (arith, out, last-has none y found.0 ys found.1))
      ])

detach-total :
    (m n : Storage) (t : ℕ) (xs : List ℕ) (a : ℕ) (ys : List ℕ)
    → SameData n m
    → (m a).quantity < u32_mod
    → t ≡ held m (xs ++ a ∷ ys) % u32_mod
    → sub32 t (n a).quantity ≡ held n (xs ++ ys) % u32_mod
detach-total m n t xs a ys same narrow total =
    let q : (n a).quantity ≡ (m a).quantity = ap (λ o. o.quantity) (same a).1 in
    omega (
      arith,
      total,
      narrow,
      q,
      held-append m xs (a ∷ ys),
      held-append n xs ys,
      held-SameData n m same xs,
      held-SameData n m same ys,
    )

-- An order that leaves a level, wherever it stands there, leaves the others in their order.
pub detach-IsQueue :
    (m : Storage) (l : PriceLevel) (xs : List ℕ) (a : ℕ) (ys : List ℕ)
    → (m a).quantity < u32_mod
    → IsQueue m l (xs ++ a ∷ ys)
    → IsQueue (unlink m a) (detach (unlink m a) a l) (xs ++ ys)
unfolding detach
detach-IsQueue m l xs a ys narrow queue =
    let (dx, dy, apart) = Distinct-split xs (a ∷ ys) queue.distinct in
    let (front, (before, after, back)) = Seg-split m none xs (a ∷ ys) none queue.linked in
    let outside : has a xs ≡ false = ground (arith, apart a) in
    let own : unlink m a a ≡ m a = unlink_self m xs ys a queue.distinct queue.linked in
    record {
      head =
          head_without l.head (unlink m a a).next xs a ys outside queue.head
            (ap (λ o. o.next) own ∙ after);
      tail =
          tail_without l.tail (unlink m a a).prev xs a ys dy.0 queue.tail
            (ap (λ o. o.prev) own ∙ before);
      distinct = Distinct-remove xs a ys queue.distinct;
      linked = unlink-Seg m xs ys a queue.distinct queue.linked;
      total =
          detach-total m (unlink m a) l.quantity xs a ys (unlink-SameData m a) narrow queue.total;
    }
