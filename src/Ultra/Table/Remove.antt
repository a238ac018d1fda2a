-- ===== src/Ultra/Table/Remove.antt =====
-- `ultra_remove`: which slot it writes.
use nasdaq_order_book.Base.{
  ℕ, zero, suc, ◌+◌, ◌<◌, ◌≡◌, ◌⊎◌, inl, inr, refl, true, none, arith, ◌==◌, ℕ-cases, update,
}
use nasdaq_order_book.Ultra.Table.{
  UltraTable, Entry, tombstone, probes, ultra_hash, probe, remove_loop, ultra_remove,
}
use nasdaq_order_book.Ultra.Table.Valid.{key}
use nasdaq_order_book.Ultra.Table.Insert.{Busy, Busy-suc}

abbrev pub grave : Entry
grave = record { order_id = tombstone; order = none }

-- The two ways in which the loop can end.
pub data Removed (t : UltraTable) (id h : ℕ) (r : UltraTable) : Type 0 where
  hit :
      (j : ℕ)
      → j < probes
      → key t (probe h j) ≡ id
      → r ≡ update t (probe h j) grave
      → Removed t id h r
  miss : (j : ℕ) → Busy t id h j → (j ≡ probes) ⊎ (key t (probe h j) ≡ 0) → r ≡ t → Removed t id h r

module _ (t : UltraTable) (id h : ℕ) where
  remove_loop-Removed :
      (n i : ℕ) → i + n ≡ probes → Busy t id h i → Removed t id h (remove_loop n t id h i)
  unfolding remove_loop
  remove_loop-Removed zero i e busy = miss i busy (inl (omega arith)) refl
  remove_loop-Removed (suc n) i e busy = elim (ℕ-cases (key t (probe h i)) id) [
    | inl same ↦
        let found : (key t (probe h i) == id) ≡ true = ground arith in
        rw found (hit i (omega arith) same refl)
    | inr other ↦ elim (ℕ-cases (key t (probe h i)) 0) [
      | inl empty ↦
          let free : (key t (probe h i) == 0) ≡ true = ground arith in
          rw (other, free) (miss i busy (inr empty) refl)
      | inr used ↦
          rw (other, used)
            (remove_loop-Removed n (i + 1) (omega arith)
              (Busy-suc t id none h i busy (ground arith) (ground arith)))
    ]
  ]

pub remove-Removed : (t : UltraTable) (id : ℕ) → Removed t id (ultra_hash id) (ultra_remove t id)
unfolding ultra_remove
remove-Removed t id =
    remove_loop-Removed t id (ultra_hash id) probes 0 refl (λ m q. absurd (omega arith))
