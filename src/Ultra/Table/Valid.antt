-- ===== src/Ultra/Table/Valid.antt =====
-- The invariant of `UltraHashTable`, and what `ultra_find` reads under it.
use nasdaq_order_book.Base.{
  ℕ, zero, suc, ◌+◌, ◌≤◌, ◌<◌, ◌≡◌, ◌≢◌, ◌⊎◌, inl, inr, refl, sym, ap, ◌∙◌, none, false, arith,
  ◌==◌, ℕ-cases, update,
}
use mathlib.Core.Path.{subst}
use nasdaq_order_book.Ultra.Table.{
  UltraTable, Entry, tombstone, ultra_hash_size, probes, ultra_hash, probe, find_loop, ultra_find,
}

-- An identifier that the table can hold: not the mark of an empty slot, not a tombstone.
abbrev pub IsLive : ℕ → Type 0
IsLive k = (k ≢ 0) × (k ≢ tombstone)

abbrev pub key : UltraTable → ℕ → ℕ
key t s = (t s).order_id

-- Slot `s` is on the probe path of `k`, behind no empty slot.
pub record IsPlaced (t : UltraTable) (k s : ℕ) : Type 0 where
  pub at : ℕ
  pub within : at < probes
  pub slot : s ≡ probe (ultra_hash k) at
  pub path : (i : ℕ) → i < at → key t (probe (ultra_hash k) i) ≢ 0

-- Every live key stands once, on its probe path and behind no empty slot.
pub record IsTable (t : UltraTable) : Type 0 where
  pub unique :
      (s s' : ℕ)
      → s < ultra_hash_size
      → s' < ultra_hash_size
      → IsLive (key t s)
      → key t s ≡ key t s'
      → s ≡ s'
  pub placed : (s : ℕ) → s < ultra_hash_size → IsLive (key t s) → IsPlaced t (key t s) s

pub probe-lt : (h i : ℕ) → probe h i < ultra_hash_size
unfolding probe
probe-lt h i = omega arith

pub probe-ne : (h i j : ℕ) → i < j → j < probes → probe h i ≢ probe h j
unfolding probe
probe-ne h i j p q = omega arith

module _ (t : UltraTable) (id h : ℕ) where
  pub find_loop-hit :
      (n i j : ℕ)
      → i ≤ j
      → j < i + n
      → key t (probe h j) ≡ id
      → ((m : ℕ) → m < j → (key t (probe h m) ≢ id) × (key t (probe h m) ≢ 0))
      → find_loop n t id h i ≡ (t (probe h j)).order
  unfolding find_loop
  find_loop-hit zero i j lo hi e path = absurd (omega arith)
  find_loop-hit (suc n) i j lo hi e path = elim (ℕ-cases i j) [
    | inl same ↦ rw same (ground arith)
    | inr less ↦
        let next = find_loop-hit n (i + 1) j (ground arith) (omega arith) e path in
        ground (arith, next, path i)
  ]

  pub find_loop-miss :
      (n i : ℕ) → ((m : ℕ) → m < i + n → key t (probe h m) ≢ id) → find_loop n t id h i ≡ none
  unfolding find_loop
  find_loop-miss zero i none_is = refl
  find_loop-miss (suc n) i none_is =
      let next = find_loop-miss n (i + 1) (λ m q. none_is m (omega arith)) in
      ground (arith, next, none_is i)

  -- A bounded search of the probe path.
  pub locate :
      (n : ℕ)
      → ((j : ℕ) × (j < n) × (key t (probe h j) ≡ id)) ⊎ ((m : ℕ) → m < n → key t (probe h m) ≢ id)
  locate zero = inr λ m q. absurd (omega arith)
  locate (suc n) = elim (locate n) [
    | inl (j, q, e) ↦ inl (j, omega arith, e)
    | inr miss ↦ elim (ℕ-cases (key t (probe h n)) id) [
      | inl e ↦ inl (n, omega arith, e)
      | inr ne ↦ inr λ m q. elim (ℕ-cases m n) [
        | inl same ↦ rw same (ground arith)
        | inr other ↦ miss m (ground arith)
      ]
    ]
  ]

module _ {t : UltraTable} (valid : IsTable t) where
  -- `ultra_find` reads the slot that holds the key, wherever it is.
  pub find-key :
      (id s : ℕ) → IsLive id → s < ultra_hash_size → key t s ≡ id → ultra_find t id ≡ (t s).order
  unfolding ultra_find
  find-key id s live lt e =
      let spot : IsPlaced t id s = rw e at (valid.placed s lt (rw e live)) in
      let at = spot.at in
      let h = ultra_hash id in
      rw spot.slot (
        find_loop-hit t id h probes 0 at (omega arith) (omega (arith, spot.within))
          (rw (← spot.slot) e)
          λ m q. (
            λ same. probe-ne h m at q spot.within (
                valid.unique (probe h m) (probe h at) (probe-lt h m) (probe-lt h at) (rw same live)
                  (rw (← spot.slot, e) same)),
            spot.path m q,
          ))

-- A key that is nowhere on its probe path is not found.
pub find-absent :
    (t : UltraTable) (id : ℕ)
    → ((m : ℕ) → m < probes → key t (probe (ultra_hash id) m) ≢ id)
    → ultra_find t id ≡ none
unfolding ultra_find
find-absent t id miss = find_loop-miss t id (ultra_hash id) probes 0 (λ m q. miss m (omega arith))

module _ (t : UltraTable) (s : ℕ) (e : Entry) (filled : e.order_id ≢ 0) where
  pub update-IsPlaced : (k s' : ℕ) → IsPlaced t k s' → IsPlaced (update t s e) k s'
  update-IsPlaced k s' spot = record {
    at = spot.at;
    within = spot.within;
    slot = spot.slot;
    path = λ i q. ground (arith, spot.path i q);
  }

  -- A write of a non-empty slot keeps the invariant, if its key stood nowhere else.
  pub update-IsTable :
      IsTable t
      → (IsLive e.order_id
          → IsPlaced t e.order_id s
            × ((s' : ℕ) → s' < ultra_hash_size → key t s' ≡ e.order_id → s' ≡ s))
      → IsTable (update t s e)
  update-IsTable valid fits = record { unique = unique'; placed = placed' }
    where
      unique' :
          (a b : ℕ)
          → a < ultra_hash_size
          → b < ultra_hash_size
          → IsLive (key (update t s e) a)
          → key (update t s e) a ≡ key (update t s e) b
          → a ≡ b
      unique' a b la lb live same = elim (ℕ-cases a s) [
        | inl ea ↦ elim (ℕ-cases b s) [
          | inl eb ↦ ground arith
          | inr nb ↦
              let live' : IsLive e.order_id = ground arith in
              absurd (ground (arith, (fits live').1 b lb))
        ]
        | inr na ↦ elim (ℕ-cases b s) [
          | inl eb ↦
              let live' : IsLive e.order_id = ground arith in
              absurd (ground (arith, (fits live').1 a la))
          | inr nb ↦ valid.unique a b la lb (ground arith) (ground arith)
        ]
      ]

      placed' :
          (a : ℕ)
          → a < ultra_hash_size
          → IsLive (key (update t s e) a)
          → IsPlaced (update t s e) (key (update t s e) a) a
      placed' a la live = elim (ℕ-cases a s) [
        | inl ea ↦
            let read : e.order_id ≡ key (update t s e) a = ground arith in
            subst (λ k. IsPlaced (update t s e) k a) read
              (update-IsPlaced e.order_id a
                (subst (IsPlaced t e.order_id) (sym ea) (fits (rw read live)).0))
        | inr na ↦
            let read : key t a ≡ key (update t s e) a = ground arith in
            subst (λ k. IsPlaced (update t s e) k a) read
              (update-IsPlaced (key t a) a (valid.placed a la (rw read live)))
      ]

module _ {t : UltraTable} (valid : IsTable t) (s : ℕ) (e : Entry) where
  -- Such a write leaves alone what is read at any other live key.
  pub find-update_ne :
      (id : ℕ)
      → IsTable (update t s e)
      → IsLive id
      → e.order_id ≢ id
      → key t s ≢ id
      → ultra_find (update t s e) id ≡ ultra_find t id
  find-update_ne id valid' live ne old = elim (locate t id (ultra_hash id) probes) [
    | inl (j, q, hit) ↦
        let a = probe (ultra_hash id) j in
        let apart : (a == s) ≡ false = ground (arith) in
        let same : update t s e a ≡ t a = rw apart in
        find-key valid' id a live (probe-lt _ j) (ap (λ x. x.order_id) same ∙ hit)
        ∙ ap (λ x. x.order) same
        ∙ sym (find-key valid id a live (probe-lt _ j) hit)
    | inr miss ↦
        find-absent (update t s e) id (λ m q. ground (arith, miss m q))
        ∙ sym (find-absent t id miss)
  ]
