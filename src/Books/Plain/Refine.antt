-- ===== src/Books/Plain/Refine.antt =====
-- An event applied to an `OrderBook` changes its hash map and the pool as Books/Index/Step.antt says.
use nasdaq_order_book.Base.{
  ℕ, ◌+◌, ◌-◌, ◌<◌, ◌≡◌, refl, ap, ◌∙◌, add32, sub32, Bool, true, false, not, Option, arith, none,
  some, ◌==◌, ltb, if◌then◌else◌, update,
}
use nasdaq_order_book.Core.Event.{ItchEvent, add, exec, cancel, delete, replace}
use nasdaq_order_book.Base.Assoc.{insert, erase, lookup}
use nasdaq_order_book.Books.Memory.{
  Storage, pool_size, next_place, acquire_order, release_order, fresh, link_next, link_prev,
  SameData, SameData-trans, link_next-SameData, link_prev-SameData, unlink-SameData,
}
use nasdaq_order_book.Books.Index.Step.{
  Table, SameTable, SameTable-refl, SameTable-trans, write-SameTable, change-SameTable, dropped,
  lowered, step, step_add, step_execute, step_delete, step_replace,
}
use nasdaq_order_book.Books.Index.Feed.{Book}
use nasdaq_order_book.Books.Plain.{
  State, PriceLevel, levels, set_levels, set_storage, set_order, set_entries, append_links,
  level_or_new, add_to_level, remove_from, level_of, remove_from_level, change_found,
  change_quantity, place, add_order, delete_at, delete_order, take_from, settle, execute_at,
  execute_order, move, resize, replace_at, replace_order, apply,
}

unfoldable pub table : State → Table
table s = record { entries = s.book.orders; storage = s.pool.storage; index = s.pool.index }

pub append_links-SameData : (m : Storage) (a : ℕ) (l : PriceLevel) → SameData (append_links m a l) m
unfolding append_links
append_links-SameData m a l =
    elim l.head
      as (λ h.
        SameData
          (elim h [ none ↦ m | some _ ↦ link_prev (link_next m l.tail (some a)) (some a) l.tail ])
          m) [
            | none ↦ λ b. (refl, refl)
            | some _ ↦
                let n = link_next m l.tail (some a) in
                SameData-trans (link_prev n (some a) l.tail) n m
                  (link_prev-SameData n (some a) l.tail) (link_next-SameData m l.tail (some a))
          ]

add_to_level-SameTable : (s : State) (a : ℕ) → SameTable (table (add_to_level s a)) (table s)
unfolding table add_to_level set_levels set_storage
add_to_level-SameTable s a = record {
  entries = refl;
  memory = append_links-SameData s.pool.storage a (level_or_new (level_of s a));
  index = refl;
}

remove_from-SameTable :
    (s : State) (a : ℕ) (found : Option PriceLevel)
    → SameTable (table (remove_from s a found)) (table s)
unfolding table remove_from set_levels set_storage
remove_from-SameTable s a none = SameTable-refl (table s)
remove_from-SameTable s a (some l) = record {
  entries = refl;
  memory = unlink-SameData s.pool.storage a;
  index = refl;
}

remove_from_level-SameTable :
    (s : State) (a : ℕ) → SameTable (table (remove_from_level s a)) (table s)
unfolding remove_from_level
remove_from_level-SameTable s a = remove_from-SameTable s a (level_of s a)

change_found-SameTable :
    (s : State) (is_buy : Bool) (price : ℕ) (f : ℕ → ℕ) (found : Option PriceLevel)
    → SameTable (table (change_found s is_buy price f found)) (table s)
unfolding table change_found set_levels
change_found-SameTable s is_buy price f none = SameTable-refl (table s)
change_found-SameTable s is_buy price f (some l) = SameTable-refl (table s)

change_quantity-SameTable :
    (s : State) (is_buy : Bool) (price : ℕ) (f : ℕ → ℕ)
    → SameTable (table (change_quantity s is_buy price f)) (table s)
unfolding change_quantity
change_quantity-SameTable s is_buy price f =
    change_found-SameTable s is_buy price f (lookup price (levels s is_buy))

place-SameTable :
    (s : State) (id side q p : ℕ)
    → s.pool.index < pool_size
    → SameTable (table (place s id side q p)) (step_add (table s) none id side q p)
unfolding table place next_place acquire_order step_add set_order set_storage set_entries
place-SameTable s id side q p room =
    let here : next_place s.pool ≡ s.pool.index = ground arith in
    let o = fresh id side q p in
    let s₁ =
      set_order (record s { pool = record (s.pool) { index = s.pool.index + 1 } }) s.pool.index o in
    rw (here)
      (add_to_level-SameTable (set_entries s₁ (insert id s.pool.index s.book.orders)) s.pool.index)

delete_at-SameTable :
    (s : State) (id a : ℕ)
    → SameTable (table (delete_at s id a)) (step_delete (table s) (some a) id)
unfolding table delete_at release_order step_delete set_entries
delete_at-SameTable s id a =
    change-SameTable (table (remove_from_level s a)) (table s) (erase id)
      (remove_from_level-SameTable s a)

move-SameTable :
    (s : State) (a old_id new_id q p : ℕ)
    → SameTable
        (table (move s a old_id new_id q p))
        (step_replace (table s) (some a) old_id new_id q p)
unfolding table move step_replace set_storage set_order set_entries
move-SameTable s a old_id new_id q p =
    let o = fresh new_id (s.pool.storage a).side q p in
    let s₁ = remove_from_level s a in
    let s₂ = set_order s₁ a o in
    let s₃ = set_entries s₂ (insert new_id a (erase old_id s₂.book.orders)) in
    SameTable-trans (table (add_to_level s₃ a)) (table s₃)
      (step_replace (table s) (some a) old_id new_id q p) (add_to_level-SameTable s₃ a)
      (change-SameTable (table s₂) (record (table s) { storage = update s.pool.storage a o })
        (λ es. insert new_id a (erase old_id es))
        (write-SameTable (table s₁) (table s) a o o (remove_from_level-SameTable s a) refl refl))

delete_order-SameTable :
    (s : State) (id : ℕ)
    → SameTable (table (delete_order s id)) (step_delete (table s) (lookup id s.book.orders) id)
unfolding delete_order step_delete table
delete_order-SameTable s id =
    elim (lookup id s.book.orders)
      as (λ r.
        SameTable (table (elim r [ none ↦ s | some a ↦ delete_at s id a ]))
          (step_delete (table s) r id)) [
            | none ↦ SameTable-refl (table s)
            | some a ↦ delete_at-SameTable s id a
          ]

delete_found :
    (s : State) (id a : ℕ)
    → lookup id s.book.orders ≡ some a
    → SameTable (table (delete_order s id)) (dropped (table s) id)
unfolding step_delete
delete_found s id a found = rw found at (delete_order-SameTable s id)

settle-SameTable :
    (s : State) (id a : ℕ)
    → lookup id s.book.orders ≡ some a
    → SameTable
        (table (settle s id a))
        (if (s.pool.storage a).quantity == 0 then dropped (table s) id else table s)
unfolding settle
settle-SameTable s id a found =
    elim ((s.pool.storage a).quantity == 0)
      as (λ b.
        SameTable (table (if b then delete_order s id else s))
          (if b then dropped (table s) id else table s)) [
            | true ↦ delete_found s id a found
            | false ↦ SameTable-refl (table s)
          ]

take_from-SameTable :
    (s : State) (a removed : ℕ)
    → SameTable (table (take_from s a removed)) (lowered (table s) a removed)
unfolding take_from table set_order set_storage
take_from-SameTable s a removed =
    let o = s.pool.storage a in
    let s₁ = change_quantity s (o.side == b'B') o.price λ q. sub32 q removed in
    let w = record o { quantity = o.quantity - removed } in
    write-SameTable (table s₁) (table s) a w w
      (change_quantity-SameTable s (o.side == b'B') o.price λ q. sub32 q removed) refl refl

settle-taken :
    (s : State) (id a q : ℕ)
    → lookup id s.book.orders ≡ some a
    → SameTable (table (settle (take_from s a q) id a)) (step_execute (table s) (some a) id q)
unfolding step_execute table take_from set_order set_storage
settle-taken s id a q found =
    let s₁ = take_from s a q in
    let o = s.pool.storage a in
    let now : (s₁.pool.storage a).quantity ≡ o.quantity - q = ground arith in
    let same = take_from-SameTable s a q in
    let still : lookup id s₁.book.orders ≡ some a = ap (lookup id) same.entries ∙ found in
    let settled = rw now at (settle-SameTable s₁ id a still) in
    SameTable-trans (table (settle s₁ id a))
      (if o.quantity - q == 0 then dropped (table s₁) id else table s₁)
      (if o.quantity - q == 0 then dropped (lowered (table s) a q) id else lowered (table s) a q)
      settled
      (elim (o.quantity - q == 0)
        as (λ b.
          SameTable (if b then dropped (table s₁) id else table s₁)
            (if b then dropped (lowered (table s) a q) id else lowered (table s) a q)) [
              | true ↦ change-SameTable (table s₁) (lowered (table s) a q) (erase id) same
              | false ↦ same
            ])

execute_at-SameTable :
    (s : State) (id a q : ℕ)
    → lookup id s.book.orders ≡ some a
    → SameTable (table (execute_at s id a q)) (step_execute (table s) (some a) id q)
unfolding execute_at step_execute table
execute_at-SameTable s id a q found =
    let o = s.pool.storage a in
    let removed = if ltb q o.quantity then q else o.quantity in
    let left : o.quantity - removed ≡ o.quantity - q = ground arith in
    rw left at (settle-taken s id a removed found)

execute_order-SameTable :
    (s : State) (id q : ℕ)
    → SameTable
        (table (execute_order s id q))
        (step_execute (table s) (lookup id s.book.orders) id q)
unfolding execute_order step_execute table
execute_order-SameTable s id q =
    elim (lookup id s.book.orders)
        as (λ r.
          lookup id s.book.orders ≡ r
          → SameTable (table (elim r [ none ↦ s | some a ↦ execute_at s id a q ]))
              (step_execute (table s) r id q)) [
                | none ↦ λ unused. SameTable-refl (table s)
                | some a ↦ execute_at-SameTable s id a q
              ]
      refl

resize-SameTable :
    (s : State) (a old_id new_id q p : ℕ)
    → (s.pool.storage a).price ≡ p
    → SameTable
        (table (resize s a old_id new_id q p))
        (step_replace (table s) (some a) old_id new_id q p)
unfolding table resize step_replace set_storage set_order set_entries fresh
resize-SameTable s a old_id new_id q p same =
    let o = s.pool.storage a in
    let f = λ (n : ℕ). add32 (sub32 n o.quantity) q in
    let s₁ = change_quantity s (o.side == b'B') p f in
    let w = record o { id = new_id; quantity = q } in
    let v = fresh new_id o.side q p in
    let s₂ = set_order s₁ a w in
    change-SameTable (table s₂) (record (table s) { storage = update s.pool.storage a v })
      (λ es. insert new_id a (erase old_id es))
      (write-SameTable (table s₁) (table s) a w v (change_quantity-SameTable s (o.side == b'B') p f)
        refl (cc same))

replace_at-SameTable :
    (s : State) (a old_id new_id q p : ℕ)
    → SameTable
        (table (replace_at s a old_id new_id q p))
        (step_replace (table s) (some a) old_id new_id q p)
unfolding replace_at
replace_at-SameTable s a old_id new_id q p =
    let price = (s.pool.storage a).price in
    elim (price == p)
        as (λ b.
          (price == p) ≡ b
          → SameTable
              (table (if not b then move s a old_id new_id q p else resize s a old_id new_id q p))
              (step_replace (table s) (some a) old_id new_id q p)) [
                | true ↦ λ same. resize-SameTable s a old_id new_id q p (ground arith)
                | false ↦ λ other. move-SameTable s a old_id new_id q p
              ]
      refl

pub apply-SameTable :
    (e : ItchEvent) (s : State)
    → s.pool.index < pool_size
    → SameTable (table (apply e s)) (step e (table s))
unfolding apply step table step_add step_replace add_order replace_order
apply-SameTable (add id side q p _) s room =
    elim (lookup id s.book.orders)
      as (λ r.
        SameTable (table (elim r [ some _ ↦ s | none ↦ place s id side q p ]))
          (step_add (table s) r id side q p)) [
            | none ↦ place-SameTable s id side q p room
            | some a ↦ SameTable-refl (table s)
          ]
apply-SameTable (exec id q) s room = execute_order-SameTable s id q
apply-SameTable (cancel id q) s room = execute_order-SameTable s id q
apply-SameTable (delete id) s room = delete_order-SameTable s id
apply-SameTable (replace old_id new_id q p _) s room =
    elim (lookup old_id s.book.orders)
      as (λ r.
        SameTable (table (elim r [ none ↦ s | some a ↦ replace_at s a old_id new_id q p ]))
          (step_replace (table s) r old_id new_id q p)) [
            | none ↦ SameTable-refl (table s)
            | some a ↦ replace_at-SameTable s a old_id new_id q p
          ]

unfoldable pub plain_book : Book State
unfolding table
plain_book = record { table = table; apply = apply; law = apply-SameTable }
