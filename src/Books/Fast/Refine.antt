-- ===== src/Books/Fast/Refine.antt =====
-- An event applied to an `OptimizedOrderBook` changes its hash map and the pool as
-- Books/Index/Step.antt says.
use nasdaq_order_book.Base.{
  ℕ, ◌-◌, ◌<◌, ◌≡◌, refl, true, false, not, arith, none, some, ◌==◌, ltb, if◌then◌else◌, update,
}
use nasdaq_order_book.Core.Event.{ItchEvent, add, exec, cancel, delete, replace}
use nasdaq_order_book.Books.Memory.{
  Ptr, Order, Storage, pool_size, next_place, acquire_order, release_order, fresh, link_next,
  link_prev, unlink, update-SameData, SameData, SameData-trans, link_next-SameData,
  link_prev-SameData, unlink-SameData,
}
use nasdaq_order_book.Books.Index.Step.{
  Table, SameTable, SameTable-refl, dropped, lowered, step, step_add, step_execute, step_delete,
  step_replace,
}
use nasdaq_order_book.Books.Index.Feed.{Book}
use nasdaq_order_book.Books.Fast.{
  State, find, insert_order, remove, set_level, set_storage, set_order, push_front,
  add_to_level_fast, remove_from_level_fast, place, add_order, delete_at, delete_order, take_from,
  settle, execute_at, execute_order, move, resize, replace_at, replace_order, apply,
}

unfoldable pub table : State → Table
table s = record { entries = s.book.order_hash; storage = s.pool.storage; index = s.pool.index }

push_front-SameData : (m : Storage) (a : ℕ) (first : Ptr) → SameData (push_front m a first) m
unfolding push_front
push_front-SameData m a first =
    let n = link_next m (some a) first in
    let k = link_prev n first (some a) in
    SameData-trans (link_prev k (some a) none) k m (link_prev-SameData k (some a) none) (
      SameData-trans k n m (link_prev-SameData n first (some a))
        (link_next-SameData m (some a) first))

place-SameTable :
    (s : State) (id side q p : ℕ)
    → s.pool.index < pool_size
    → SameTable (table (place s id side q p)) (step_add (table s) none id side q p)
unfolding table place next_place acquire_order step_add set_order set_storage set_level
    add_to_level_fast insert_order
place-SameTable s id side q p room =
    let m = update s.pool.storage s.pool.index (fresh id side q p) in
    let here : next_place s.pool ≡ s.pool.index = ground arith in
    rw (here)
      (record { entries = refl; memory = push_front-SameData m s.pool.index _; index = refl })

delete_at-SameTable :
    (s : State) (id a : ℕ)
    → SameTable (table (delete_at s id a)) (step_delete (table s) (some a) id)
unfolding table delete_at release_order step_delete set_storage set_level remove
    remove_from_level_fast
delete_at-SameTable s id a = record {
  entries = refl;
  memory = unlink-SameData s.pool.storage a;
  index = refl;
}

delete_order-SameTable :
    (s : State) (id : ℕ)
    → SameTable (table (delete_order s id)) (step_delete (table s) (find s id) id)
unfolding delete_order step_delete table
delete_order-SameTable s id =
    elim (find s id)
      as (λ r.
        SameTable (table (elim r [ none ↦ s | some a ↦ delete_at s id a ]))
          (step_delete (table s) r id)) [
            | none ↦ SameTable-refl (table s)
            | some a ↦ delete_at-SameTable s id a
          ]

delete_found :
    (s : State) (id a : ℕ)
    → find s id ≡ some a
    → SameTable (table (delete_order s id)) (dropped (table s) id)
unfolding step_delete
delete_found s id a found = rw found at (delete_order-SameTable s id)

settle-SameTable :
    (s : State) (id a : ℕ)
    → find s id ≡ some a
    → SameTable
        (table (settle s id a))
        (if (s.pool.storage a).quantity == 0 then dropped (table s) id else table s)
unfolding settle
settle-SameTable s id a found =
    elim ((s.pool.storage a).quantity == 0)
      as (λ b.
        SameTable (table (if b then delete_order s id else s))
          (if b then dropped (table s) id else table s)) [
            | true ↦ delete_found s id a found
            | false ↦ SameTable-refl (table s)
          ]

taken : (s : State) (a removed : ℕ) → table (take_from s a removed) ≡ lowered (table s) a removed
unfolding take_from table set_order set_storage set_level
taken s a removed = refl

settle-taken :
    (s : State) (id a q : ℕ)
    → find s id ≡ some a
    → SameTable (table (settle (take_from s a q) id a)) (step_execute (table s) (some a) id q)
unfolding step_execute find table take_from set_order set_storage set_level
settle-taken s id a q found =
    let now : ((take_from s a q).pool.storage a).quantity ≡ (s.pool.storage a).quantity - q =
      ground arith in
    rw now at (settle-SameTable (take_from s a q) id a found)

execute_at-SameTable :
    (s : State) (id a q : ℕ)
    → find s id ≡ some a
    → SameTable (table (execute_at s id a q)) (step_execute (table s) (some a) id q)
unfolding execute_at step_execute table
execute_at-SameTable s id a q found =
    let o = s.pool.storage a in
    let removed = if ltb q o.quantity then q else o.quantity in
    let left : o.quantity - removed ≡ o.quantity - q = ground arith in
    rw left at (settle-taken s id a removed found)

execute_order-SameTable :
    (s : State) (id q : ℕ)
    → SameTable (table (execute_order s id q)) (step_execute (table s) (find s id) id q)
unfolding execute_order step_execute table
execute_order-SameTable s id q =
    elim (find s id)
        as (λ r.
          find s id ≡ r
          → SameTable (table (elim r [ none ↦ s | some a ↦ execute_at s id a q ]))
              (step_execute (table s) r id q)) [
                | none ↦ λ unused. SameTable-refl (table s)
                | some a ↦ execute_at-SameTable s id a q
              ]
      refl

moved-SameData :
    (m : Storage) (a : ℕ) (first : Ptr) (o : Order)
    → SameData (push_front (update (unlink m a) a o) a first) (update m a o)
moved-SameData m a first o =
    let n = update (unlink m a) a o in
    SameData-trans (push_front n a first) n (update m a o) (push_front-SameData n a first)
      (update-SameData (unlink m a) m a o o (unlink-SameData m a) refl refl)

move-SameTable :
    (s : State) (a old_id new_id q p : ℕ)
    → SameTable
        (table (move s a old_id new_id q p))
        (step_replace (table s) (some a) old_id new_id q p)
unfolding table move step_replace set_storage set_order set_level remove insert_order
    remove_from_level_fast add_to_level_fast
move-SameTable s a old_id new_id q p = record {
  entries = refl;
  memory = moved-SameData s.pool.storage a _ (fresh new_id (s.pool.storage a).side q p);
  index = refl;
}

resize-SameTable :
    (s : State) (a old_id new_id q p : ℕ)
    → (s.pool.storage a).price ≡ p
    → SameTable
        (table (resize s a old_id new_id q p))
        (step_replace (table s) (some a) old_id new_id q p)
unfolding table resize step_replace set_storage set_order set_level remove insert_order fresh
resize-SameTable s a old_id new_id q p same = record {
  entries = refl;
  memory =
      update-SameData s.pool.storage s.pool.storage a
        (record (s.pool.storage a) { id = new_id; quantity = q })
        (fresh new_id (s.pool.storage a).side q p) (λ b. (refl, refl)) refl (cc same);
  index = refl;
}

replace_at-SameTable :
    (s : State) (a old_id new_id q p : ℕ)
    → SameTable
        (table (replace_at s a old_id new_id q p))
        (step_replace (table s) (some a) old_id new_id q p)
unfolding replace_at
replace_at-SameTable s a old_id new_id q p =
    let price = (s.pool.storage a).price in
    elim (price == p)
        as (λ b.
          (price == p) ≡ b
          → SameTable
              (table (if not b then move s a old_id new_id q p else resize s a old_id new_id q p))
              (step_replace (table s) (some a) old_id new_id q p)) [
                | true ↦ λ same. resize-SameTable s a old_id new_id q p (ground arith)
                | false ↦ λ other. move-SameTable s a old_id new_id q p
              ]
      refl

pub apply-SameTable :
    (e : ItchEvent) (s : State)
    → s.pool.index < pool_size
    → SameTable (table (apply e s)) (step e (table s))
unfolding apply step table find step_add step_replace add_order replace_order
apply-SameTable (add id side q p _) s room =
    elim (find s id)
      as (λ r.
        SameTable (table (elim r [ some _ ↦ s | none ↦ place s id side q p ]))
          (step_add (table s) r id side q p)) [
            | none ↦ place-SameTable s id side q p room
            | some a ↦ SameTable-refl (table s)
          ]
apply-SameTable (exec id q) s room = execute_order-SameTable s id q
apply-SameTable (cancel id q) s room = execute_order-SameTable s id q
apply-SameTable (delete id) s room = delete_order-SameTable s id
apply-SameTable (replace old_id new_id q p _) s room =
    elim (find s old_id)
      as (λ r.
        SameTable (table (elim r [ none ↦ s | some a ↦ replace_at s a old_id new_id q p ]))
          (step_replace (table s) r old_id new_id q p)) [
            | none ↦ SameTable-refl (table s)
            | some a ↦ replace_at-SameTable s a old_id new_id q p
          ]

unfoldable pub optimized_book : Book State
unfolding table
optimized_book = record { table = table; apply = apply; law = apply-SameTable }
