-- ===== src/Ultra/Table/Insert.antt =====
-- `ultra_insert`: which slot it writes, and what is read afterwards.
use nasdaq_order_book.Base.{
  ℕ, zero, suc, ◌+◌, ◌%◌, ◌≤◌, ◌<◌, ◌≡◌, ◌≢◌, ◌⊎◌, inl, inr, refl, true, sym, ap, ◌∙◌, Option, none,
  some, arith, ◌==◌, ℕ-cases, update,
}
use nasdaq_order_book.Ultra.Order.{Ptr}
use nasdaq_order_book.Ultra.Table.{
  UltraTable, Entry, tombstone, ultra_hash_size, probes, ultra_hash, probe, tomb_or, note_tomb,
  insert_loop, ultra_insert,
}
use nasdaq_order_book.Ultra.Table.Valid.{IsLive, key, IsPlaced, IsTable, probe-lt, update-IsTable}

abbrev pub entry : ℕ → Ptr → Entry
entry id p = record { order_id = id; order = p }

-- The first `j` probes met neither an empty slot nor `id`.
abbrev pub Busy : UltraTable → ℕ → ℕ → ℕ → Type 0
Busy t id h j = (m : ℕ) → m < j → (key t (probe h m) ≢ 0) × (key t (probe h m) ≢ id)

-- The three ways in which the loop can end.
pub data Inserted (t : UltraTable) (id : ℕ) (p : Ptr) (h : ℕ) (r : UltraTable) : Type 0 where
  hit :
      (j : ℕ)
      → j < probes
      → key t (probe h j) ≡ id
      → Busy t id h j
      → r ≡ update t (probe h j) (entry id p)
      → Inserted t id p h r
  fresh :
      (m j : ℕ)
      → m ≤ j
      → m < probes
      → Busy t id h j
      → (j ≡ probes) ⊎ (key t (probe h j) ≡ 0)
      → (key t (probe h m) ≡ 0) ⊎ (key t (probe h m) ≡ tombstone)
      → r ≡ update t (probe h m) (entry id p)
      → Inserted t id p h r
  evict :
      Busy t id h probes
      → ((m : ℕ) → m < probes → key t (probe h m) ≢ tombstone)
      → r ≡ update t (h % ultra_hash_size) (entry id p)
      → Inserted t id p h r

-- What `first_tomb` says after `i` probes.
abbrev pub Tomb : UltraTable → ℕ → ℕ → Option ℕ → Type 0
Tomb t h i none = (m : ℕ) → m < i → key t (probe h m) ≢ tombstone
Tomb t h i (some s) = (m : ℕ) × (m < i) × (s ≡ probe h m) × (key t s ≡ tombstone)

module _ (t : UltraTable) (id : ℕ) (p : Ptr) (h : ℕ) where
  pub Busy-suc :
      (i : ℕ) → Busy t id h i → key t (probe h i) ≢ 0 → key t (probe h i) ≢ id → Busy t id h (i + 1)
  Busy-suc i busy ne ni m q = elim (ℕ-cases m i) [
    | inl same ↦ rw same (ne, ni)
    | inr other ↦ busy m (ground arith)
  ]

  note_tomb-Tomb :
      (i : ℕ) (tomb : Option ℕ)
      → Tomb t h i tomb
      → Tomb t h (i + 1) (note_tomb tomb (key t (probe h i)) (probe h i))
  unfolding note_tomb
  note_tomb-Tomb i (some s) (m, q, e, k) = (m, omega arith, e, k)
  note_tomb-Tomb i none clean = elim (ℕ-cases (key t (probe h i)) tombstone) [
    | inl e ↦ rw e (i, omega arith, refl, e)
    | inr ne ↦ rw ne (λ m q. elim (ℕ-cases m i) [
      | inl same ↦ rw same (ground arith)
      | inr other ↦ clean m (ground arith)
    ])
  ]

  empty-Inserted :
      (i : ℕ) (tomb : Option ℕ)
      → i < probes
      → Busy t id h i
      → Tomb t h i tomb
      → key t (probe h i) ≡ 0
      → Inserted t id p h (update t (tomb_or tomb (probe h i)) (entry id p))
  unfolding tomb_or
  empty-Inserted i none lt busy clean e = fresh i i (omega arith) lt busy (inr e) (inl e) refl
  empty-Inserted i (some s) lt busy (m, q, at, k) e =
      fresh m i (omega arith) (omega arith) busy (inr e) (inr (rw (← at) k))
        (ap (λ x. update t x (entry id p)) at)

  last-Inserted :
      (tomb : Option ℕ)
      → Busy t id h probes
      → Tomb t h probes tomb
      → Inserted t id p h (update t (tomb_or tomb (h % ultra_hash_size)) (entry id p))
  unfolding tomb_or
  last-Inserted none busy clean = evict busy clean refl
  last-Inserted (some s) busy (m, q, at, k) =
      fresh m probes (omega arith) q busy (inl refl) (inr (rw (← at) k))
        (ap (λ x. update t x (entry id p)) at)

  insert_loop-Inserted :
      (n i : ℕ) (tomb : Option ℕ)
      → i + n ≡ probes
      → Busy t id h i
      → Tomb t h i tomb
      → Inserted t id p h (insert_loop n t id p h i tomb)
  unfolding insert_loop
  insert_loop-Inserted zero i tomb e busy mark =
      let last : i ≡ probes = omega arith in
      last-Inserted tomb (rw (← last) busy) (rw (← last) mark)
  insert_loop-Inserted (suc n) i tomb e busy mark = elim (ℕ-cases (key t (probe h i)) 0) [
    | inl empty ↦ rw empty (empty-Inserted i tomb (omega arith) busy mark empty)
    | inr used ↦ elim (ℕ-cases (key t (probe h i)) id) [
      | inl same ↦
          let found : (key t (probe h i) == id) ≡ true = ground arith in
          hit i (omega arith) same busy
            (rw (used, found) (ap (λ k. update t (probe h i) (entry k p)) same))
      | inr other ↦
          rw (used, other)
            (insert_loop-Inserted n (i + 1) (note_tomb tomb (key t (probe h i)) (probe h i))
              (omega arith) (Busy-suc i busy (ground arith) (ground arith))
              (note_tomb-Tomb i tomb mark))
    ]
  ]

-- The loop ends in one of the three ways.
pub insert-Inserted :
    (t : UltraTable) (id : ℕ) (p : Ptr) → Inserted t id p (ultra_hash id) (ultra_insert t id p)
unfolding ultra_insert
insert-Inserted t id p =
    insert_loop-Inserted t id p (ultra_hash id) probes 0 none refl (λ m q. absurd (omega arith))
      (λ m q. absurd (omega arith))

-- Some slot of the probe path is empty, a tombstone, or the key's own.
pub record HasRoom (t : UltraTable) (id : ℕ) : Type 0 where
  pub at : ℕ
  pub within : at < probes
  pub free :
      (key t (probe (ultra_hash id) at) ≡ 0)
      ⊎ (key t (probe (ultra_hash id) at) ≡ tombstone)
      ⊎ (key t (probe (ultra_hash id) at) ≡ id)

module _ {t : UltraTable} (valid : IsTable t) (id : ℕ) (live : IsLive id) where
  absent_of :
      (j s : ℕ)
      → Busy t id (ultra_hash id) j
      → (j ≡ probes) ⊎ (key t (probe (ultra_hash id) j) ≡ 0)
      → IsPlaced t id s
      → key t s ≢ id
  absent_of j s busy stop spot e =
      let here : key t (probe (ultra_hash id) spot.at) ≡ id = rw (← spot.slot) e in
      elim (ℕ-cases spot.at j) [
        | inl same ↦
            let last : key t (probe (ultra_hash id) j) ≡ id = rw (← same) here in
            ground (arith, spot.within)
        | inr other ↦ ground (arith, busy spot.at, spot.path j, spot.within)
      ]

  -- A key that the probes missed is nowhere in the table.
  pub absent :
      (j : ℕ)
      → Busy t id (ultra_hash id) j
      → (j ≡ probes) ⊎ (key t (probe (ultra_hash id) j) ≡ 0)
      → (s : ℕ) → s < ultra_hash_size
      → key t s ≢ id
  absent j busy stop s lt e = absent_of j s busy stop (rw e at (valid.placed s lt (rw e live))) e

  -- A write of the key keeps the invariant, if the key was nowhere or stood in that slot.
  write-IsTable :
      (p : Ptr) (j : ℕ)
      → j < probes
      → Busy t id (ultra_hash id) j
      → ((s : ℕ) → s < ultra_hash_size → key t s ≡ id → s ≡ probe (ultra_hash id) j)
      → IsTable (update t (probe (ultra_hash id) j) (entry id p))
  write-IsTable p j lt busy only =
      update-IsTable t (probe (ultra_hash id) j) (entry id p) live.0 valid
        λ _. (record { at = j; within = lt; slot = refl; path = λ i q. (busy i q).0 }, only)

  Busy-le : (j m : ℕ) → m ≤ j → Busy t id (ultra_hash id) j → Busy t id (ultra_hash id) m
  Busy-le j m le busy i q = busy i (omega arith)

  -- Where the loop ends, the slot that it writes, and why no other live key is lost.
  pub record Write (p : Ptr) (r : UltraTable) : Type 0 where
    pub at : ℕ
    pub lt : at < ultra_hash_size
    pub result : r ≡ update t at (entry id p)
    pub valid' : IsTable (update t at (entry id p))
    pub old : HasRoom t id → (j : ℕ) → IsLive j → j ≢ id → key t at ≢ j

  pub home : probe (ultra_hash id) 0 ≡ ultra_hash id % ultra_hash_size
  unfolding probe
  home = ap (λ (x : ℕ). x % ultra_hash_size) (omega arith)

  no_room :
      Busy t id (ultra_hash id) probes
      → ((m : ℕ) → m < probes → key t (probe (ultra_hash id) m) ≢ tombstone)
      → ¬ HasRoom t id
  no_room busy clean room =
      ground (arith, busy room.at room.within, clean room.at room.within, room.free)

  pub Inserted-Write : (p : Ptr) (r : UltraTable) → Inserted t id p (ultra_hash id) r → Write p r
  Inserted-Write p r (hit j lt e busy eq) = record {
    at = probe (ultra_hash id) j;
    lt = probe-lt (ultra_hash id) j;
    result = eq;
    valid' = write-IsTable p j lt busy λ s q k.
        valid.unique s (probe (ultra_hash id) j) q (probe-lt (ultra_hash id) j) (rw k live)
          (k ∙ sym e);
    old = λ _ i li ne k. ne (sym k ∙ e);
  }
  Inserted-Write p r (fresh m j le lt busy stop free eq) = record {
    at = probe (ultra_hash id) m;
    lt = probe-lt (ultra_hash id) m;
    result = eq;
    valid' = write-IsTable p m lt (Busy-le j m le busy) λ s q k. absurd (absent j busy stop s q k);
    old = λ _ i li ne k. elim free [ inl z ↦ li.0 (sym k ∙ z) | inr z ↦ li.1 (sym k ∙ z) ];
  }
  Inserted-Write p r (evict busy clean eq) = record {
    at = probe (ultra_hash id) 0;
    lt = probe-lt (ultra_hash id) 0;
    result = eq ∙ ap (λ x. update t x (entry id p)) (sym home);
    valid' =
        write-IsTable p 0 (omega arith) (Busy-le probes 0 (omega arith) busy)
          λ s q k. absurd (absent probes busy (inl refl) s q k);
    old = λ room. absurd (no_room busy clean room);
  }
