-- ===== src/Ultra/Table/Lookup.antt =====
-- `UltraHashTable` as a map from live identifiers to orders: lookups after writes.
use nasdaq_order_book.Base.{
  ℕ, ◌%◌, ◌<◌, ◌≡◌, ◌≢◌, inl, inr, refl, sym, ap, ◌∙◌, none, arith, ◌==◌, if◌then◌else◌, ℕ-cases,
  update,
}
use nasdaq_order_book.Ultra.Order.{Ptr}
use nasdaq_order_book.Ultra.Table.{
  UltraTable, Entry, ultra_hash_size, ultra_hash, probe, new, ultra_insert, ultra_find,
  ultra_remove,
}
use nasdaq_order_book.Ultra.Table.Valid.{
  IsLive, key, IsTable, probe-lt, find-key, find-absent, update-IsTable, find-update_ne,
}
use nasdaq_order_book.Ultra.Table.Insert.{
  Inserted, hit, fresh, evict, entry, HasRoom, Write, Inserted-Write, insert-Inserted, absent, home,
}
use nasdaq_order_book.Ultra.Table.Remove
use nasdaq_order_book.Ultra.Table.Remove.{grave, Removed, remove-Removed}

-- The table of the constructor satisfies the invariant.
pub new-IsTable : IsTable new
new-IsTable = record {
  unique = λ s s' q q' live e. absurd (live.0 refl);
  placed = λ s q live. absurd (live.0 refl);
}

-- Overwriting the slot of a key by another key makes it absent.
overwritten :
    (t : UltraTable) (s id : ℕ) (e : Entry)
    → IsTable t
    → s < ultra_hash_size
    → IsLive id
    → key t s ≡ id
    → e.order_id ≢ id
    → ultra_find (update t s e) id ≡ none
overwritten t s id e valid lt live here ne = find-absent (update t s e) id λ m q.
    let a = probe (ultra_hash id) m in
    elim (ℕ-cases a s) [
      | inl same ↦ ground arith
      | inr other ↦ λ again.
          let twin : key t a ≡ id = ground arith in
          let one : a ≡ s = valid.unique a s (probe-lt _ m) lt (rw twin live) (twin ∙ sym here) in
          ground arith
    ]

module _ (t : UltraTable) (id : ℕ) (p : Ptr) (valid : IsTable t) (live : IsLive id) where
  written : Write valid id live p (ultra_insert t id p)
  written = Inserted-Write valid id live p _ (insert-Inserted t id p)

  -- `ultra_insert` of a live identifier keeps the invariant of the table, also where it evicts another.
  pub insert-IsTable : IsTable (ultra_insert t id p)
  insert-IsTable = rw written.result written.valid'

  read_back :
      (w : Write valid id live p (ultra_insert t id p)) → ultra_find (ultra_insert t id p) id ≡ p
  read_back w =
      let e : update t w.at (entry id p) w.at ≡ entry id p = ground arith in
      rw w.result
        (find-key w.valid' id w.at live w.lt (ap (λ x. x.order_id) e) ∙ ap (λ x. x.order) e)

  keep_others :
      (w : Write valid id live p (ultra_insert t id p)) (j : ℕ)
      → HasRoom t id
      → IsLive j
      → j ≢ id
      → ultra_find (ultra_insert t id p) j ≡ ultra_find t j
  keep_others w j room lj ne =
      rw w.result (
        find-update_ne valid w.at (entry id p) j w.valid' lj (λ e. ne (sym e)) (w.old room j lj ne))

  -- In a valid table, for live identifiers, and with room on the probe path, `ultra_insert` is the
  -- insertion of a map.
  pub find-insert :
      (j : ℕ)
      → HasRoom t id
      → IsLive j
      → ultra_find (ultra_insert t id p) j ≡ (if j == id then p else ultra_find t j)
  find-insert j room lj = elim (ℕ-cases j id) [
    | inl same ↦ ground (arith, read_back written, ap (ultra_find (ultra_insert t id p)) same)
    | inr other ↦ rw other (keep_others written j room lj (ground arith))
  ]

  -- What was inserted is found, whether or not there was room.
  pub find-insert_self : ultra_find (ultra_insert t id p) id ≡ p
  find-insert_self = read_back written

module _ (t : UltraTable) (id : ℕ) (valid : IsTable t) (live : IsLive id) where
  buried_IsTable : (s : ℕ) → IsTable (update t s grave)
  buried_IsTable s = update-IsTable t s grave (omega arith) valid (λ dead. absurd (dead.1 refl))

  Removed-IsTable : (r : UltraTable) → Removed t id (ultra_hash id) r → IsTable r
  Removed-IsTable r (Remove.hit j lt e eq) = rw eq (buried_IsTable (probe (ultra_hash id) j))
  Removed-IsTable r (Remove.miss j busy stop eq) = rw eq valid

  -- `ultra_remove` keeps the invariant.
  pub remove-IsTable : IsTable (ultra_remove t id)
  remove-IsTable = Removed-IsTable (ultra_remove t id) (remove-Removed t id)

  Removed-find :
      (r : UltraTable) (j : ℕ)
      → Removed t id (ultra_hash id) r
      → IsLive j
      → ultra_find r j ≡ (if j == id then none else ultra_find t j)
  Removed-find r j (Remove.hit i lt e eq) lj = elim (ℕ-cases j id) [
    | inl same ↦
        let hole =
          overwritten t (probe (ultra_hash id) i) id grave valid (probe-lt _ i) live e
            (λ z. live.1 (sym z)) in
        ground (arith, hole, ap (ultra_find r) same, ap (λ x. ultra_find x id) eq)
    | inr other ↦
        rw (eq, other)
          (find-update_ne valid (probe (ultra_hash id) i) grave j
            (buried_IsTable (probe (ultra_hash id) i)) lj (λ z. lj.1 (sym z)) (ground arith))
  ]
  Removed-find r j (Remove.miss i busy stop eq) lj = elim (ℕ-cases j id) [
    | inl same ↦
        let missing = find-absent t id (λ m q. absent valid id live i busy stop _ (probe-lt _ m)) in
        ground (arith, ap (ultra_find r) same, ap (λ x. ultra_find x id) eq)
    | inr other ↦ rw (eq, other) refl
  ]

  -- In a valid table and for live identifiers, `ultra_remove` is the removal of a map.
  pub find-remove :
      (j : ℕ)
      → IsLive j
      → ultra_find (ultra_remove t id) j ≡ (if j == id then none else ultra_find t j)
  find-remove j lj = Removed-find (ultra_remove t id) j (remove-Removed t id) lj

module _ (t : UltraTable) (id : ℕ) (p : Ptr) (valid : IsTable t) (live : IsLive id) where
  evicted :
      (victim : ℕ) (r : UltraTable)
      → Inserted t id p (ultra_hash id) r
      → ¬ HasRoom t id
      → IsLive victim
      → key t (probe (ultra_hash id) 0) ≡ victim
      → ultra_find r victim ≡ none
  evicted victim r (hit j lt e busy eq) full lv here =
      absurd (full (record { at = j; within = lt; free = inr (inr e) }))
  evicted victim r (fresh m j le lt busy stop free eq) full lv here =
      absurd (full (record { at = m; within = lt; free = ground arith }))
  evicted victim r (evict busy clean eq) full lv here =
      let slot : probe (ultra_hash id) 0 ≡ ultra_hash id % ultra_hash_size = home valid id live in
      rw (eq, ← slot)
        (overwritten t (probe (ultra_hash id) 0) victim (entry id p) valid (probe-lt _ 0) lv here
          (λ e. (busy 0 (omega arith)).1 (here ∙ sym e)))

  -- In a valid table, if the probe path of a live identifier holds 64 other live keys, `ultra_insert` overwrites the first of them, whose
  -- order is then not found.
  pub insert_evicts :
      (victim : ℕ)
      → ¬ HasRoom t id
      → IsLive victim
      → key t (probe (ultra_hash id) 0) ≡ victim
      → ultra_find (ultra_insert t id p) victim ≡ none
  insert_evicts victim = evicted victim (ultra_insert t id p) (insert-Inserted t id p)
