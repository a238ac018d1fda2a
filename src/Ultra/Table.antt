-- ===== src/Ultra/Table.antt =====
-- `UltraHashTable` of include/order_book.hpp: open addressing, 64 probes, tombstones.
pub mod Insert
pub mod Lookup
pub mod Remove
pub mod Valid
use nasdaq_order_book.Base.{
  ℕ, zero, suc, ◌+◌, ◌*◌, ◌/◌, ◌%◌, ◌^◌, Option, none, some, ◌==◌, if◌then◌else◌, update, u32_mod,
  u64_mod,
}
use nasdaq_order_book.Ultra.Order.{Ptr}

-- `TOMBSTONE`
abbrev pub tombstone : ℕ
tombstone = 0xffff_ffff_ffff_ffff

-- `ULTRA_HASH_SIZE`; `& ULTRA_HASH_MASK` is the remainder by it.
abbrev pub ultra_hash_size : ℕ
ultra_hash_size = 65536

abbrev pub probes : ℕ
probes = 64

pub record Entry : Type 0 where
  pub order_id : ℕ
  pub order : Ptr

-- `entries_`, indexed below `ultra_hash_size`
abbrev pub UltraTable : Type 0
UltraTable = ℕ → Entry

-- `calloc`
abbrev pub new : UltraTable
new s = record { order_id = 0; order = none }

unfoldable pub ultra_hash : ℕ → ℕ
ultra_hash order_id =
    order_id * 0x9e37_79b9_7f4a_7c15 % u64_mod / 2 ^ 32 % u32_mod % ultra_hash_size

-- the slot of the `i`-th probe
unfoldable pub probe : ℕ → ℕ → ℕ
probe h i = (h + i) % ultra_hash_size

-- `(first_tomb >= 0) ? first_tomb : idx`; `none` is the -1.
unfoldable pub tomb_or : Option ℕ → ℕ → ℕ
tomb_or none idx = idx
tomb_or (some s) idx = s

-- `if (k == TOMBSTONE && first_tomb < 0) first_tomb = idx`
unfoldable pub note_tomb : Option ℕ → ℕ → ℕ → Option ℕ
note_tomb none k idx = if k == tombstone then some idx else none
note_tomb (some s) k idx = some s

-- The loop of `ultra_insert` with `n` probes left and `i` made; `tomb` is `first_tomb`.
unfoldable pub insert_loop : ℕ → UltraTable → ℕ → Ptr → ℕ → ℕ → Option ℕ → UltraTable
unfolding tomb_or note_tomb
insert_loop zero t id p h i tomb =
    update t (tomb_or tomb (h % ultra_hash_size)) (record { order_id = id; order = p })
insert_loop (suc n) t id p h i tomb =
    let idx = probe h i in
    let k = (t idx).order_id in
    let rest = insert_loop n t id p h (i + 1) (note_tomb tomb k idx) in
    if k == 0
    then update t (tomb_or tomb idx) (record { order_id = id; order = p })
    else if k == id
    then update t idx (record { order_id = k; order = p })
    else rest

unfoldable pub ultra_insert : UltraTable → ℕ → Ptr → UltraTable
unfolding insert_loop
ultra_insert t id p = insert_loop probes t id p (ultra_hash id) 0 none

unfoldable pub find_loop : ℕ → UltraTable → ℕ → ℕ → ℕ → Ptr
find_loop zero t id h i = none
find_loop (suc n) t id h i =
    let e = t (probe h i) in
    let rest = find_loop n t id h (i + 1) in
    if e.order_id == id then e.order else if e.order_id == 0 then none else rest

unfoldable pub ultra_find : UltraTable → ℕ → Ptr
unfolding find_loop
ultra_find t id = find_loop probes t id (ultra_hash id) 0

unfoldable pub remove_loop : ℕ → UltraTable → ℕ → ℕ → ℕ → UltraTable
remove_loop zero t id h i = t
remove_loop (suc n) t id h i =
    let idx = probe h i in
    let k = (t idx).order_id in
    let rest = remove_loop n t id h (i + 1) in
    if k == id
    then update t idx (record { order_id = tombstone; order = none })
    else if k == 0
    then t
    else rest

unfoldable pub ultra_remove : UltraTable → ℕ → UltraTable
unfolding remove_loop
ultra_remove t id = remove_loop probes t id (ultra_hash id) 0
