-- ===== src/Books/Memory.antt =====
-- `Order` and the pool of src/order_book.cpp, which every book shares: the array
-- `g_order_pool_storage`, a function from places to orders, and `g_order_pool_index`.
use nasdaq_order_book.Base.{ℕ, ◌+◌, ◌≡◌, ◌∙◌, Option, none, some, arith, ltb, if◌then◌else◌, update}
use nasdaq_order_book.Ultra.Spec.{OrderView}

abbrev pub Ptr : Type 0
Ptr = Option ℕ

pub record Order : Type 0 where
  pub id : ℕ
  pub side : ℕ
  pub quantity : ℕ
  pub price : ℕ
  pub next : Ptr
  pub prev : Ptr

abbrev pub Storage : Type 0
Storage = ℕ → Order

pub record OrderPool : Type 0 where
  pub storage : Storage
  pub index : ℕ

abbrev pub pool_size : ℕ
pool_size = 1000000

-- The place that `acquire_order` hands out.
unfoldable pub next_place : OrderPool → ℕ
next_place p = if ltb p.index pool_size then p.index else 0

unfoldable pub acquire_order : OrderPool → ℕ × OrderPool
unfolding next_place
acquire_order p = (next_place p, record p { index = next_place p + 1 })

-- What `addOrder` and `replaceOrder` write to an order: it has no neighbours yet.
unfoldable pub fresh : ℕ → ℕ → ℕ → ℕ → Order
fresh id side quantity price = record {
  id = id;
  side = side;
  quantity = quantity;
  price = price;
  next = none;
  prev = none;
}

unfoldable pub release_order : ℕ → OrderPool → OrderPool
release_order a p = p

-- `if (x) x->next = v`
unfoldable pub link_next : Storage → Ptr → Ptr → Storage
link_next m none v = m
link_next m (some a) v = update m a (record (m a) { next = v })

-- `if (x) x->prev = v`
unfoldable pub link_prev : Storage → Ptr → Ptr → Storage
link_prev m none v = m
link_prev m (some a) v = update m a (record (m a) { prev = v })

-- The neighbours of `a` are joined, as both `remove_from_level` and `remove_from_level_fast` do.
unfoldable pub unlink : Storage → ℕ → Storage
unfolding link_next link_prev
unlink m a = let n = link_next m (m a).prev (m a).next in link_prev n (n a).next (n a).prev

-- What a book shows of an order.
abbrev pub content : Order → OrderView
content o = record { side = o.side; quantity = o.quantity; price = o.price }

-- Two memories that differ at most in the links of the lists.
abbrev pub SameData : Storage → Storage → Type 0
SameData m n = (a : ℕ) → ((m a).id ≡ (n a).id) × (content (m a) ≡ content (n a))

pub SameData-trans : (m n k : Storage) → SameData m n → SameData n k → SameData m k
SameData-trans m n k h i a = ((h a).0 ∙ (i a).0, (h a).1 ∙ (i a).1)

pub link_next-SameData : (m : Storage) (p v : Ptr) → SameData (link_next m p v) m
unfolding link_next
link_next-SameData m none v a = ground arith
link_next-SameData m (some b) v a = ground arith

pub link_prev-SameData : (m : Storage) (p v : Ptr) → SameData (link_prev m p v) m
unfolding link_prev
link_prev-SameData m none v a = ground arith
link_prev-SameData m (some b) v a = ground arith

pub unlink-SameData : (m : Storage) (a : ℕ) → SameData (unlink m a) m
unfolding unlink
unlink-SameData m a =
    let n = link_next m (m a).prev (m a).next in
    SameData-trans (link_prev n (n a).next (n a).prev) n m
      (link_prev-SameData n (n a).next (n a).prev) (link_next-SameData m (m a).prev (m a).next)

pub update-SameData :
    (m n : Storage) (a : ℕ) (o w : Order)
    → SameData m n
    → o.id ≡ w.id
    → content o ≡ content w
    → SameData (update m a o) (update n a w)
update-SameData m n a o w same own shown b = ground (arith, same b)
