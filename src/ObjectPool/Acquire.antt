-- ===== src/ObjectPool/Acquire.antt =====
-- What `acquire` and `batch_acquire` hand out.
use native.Mathlib.Nat.{mod-eq_of_lt, add-mod_right}
use mathlib.Core.Path.{subst}
use nasdaq_order_book.Base.{
  ℕ, zero, suc, ◌+◌, ◌-◌, ◌%◌, ◌≤◌, ◌<◌, ◌≡◌, refl, ◌∙◌, sym, ap, ◌⊎◌, inl, inr, Bool, true, false,
  Bool-cases, ℕ-cases, ◌&&◌, Option, none, some, List, [], ◌∷◌, ◌==◌, ltb, if◌then◌else◌, arith,
  All, length,
}
use nasdaq_order_book.ObjectPool.{
  block_size, Mask, ObjectPool, Place, lowest_bit, set_bit, claim, claim_found, acquire_loop,
  acquire, batch_found, batch_acquire,
}

-- The blocks and slots that the pool has.
abbrev pub IsPlace : ObjectPool → Place → Type 0
IsPlace p place = (place.0 < p.num_blocks) × (place.1 < block_size)

abbrev pub NoneFree : ObjectPool → Type 0
NoneFree p = (b s : ℕ) → b < p.num_blocks → s < block_size → p.free_masks b s ≡ false

abbrev IsLowest : ℕ → ℕ → Mask → Option ℕ → Type 0
IsLowest count slot mask none = (s : ℕ) → slot ≤ s → s < slot + count → mask s ≡ false
IsLowest count slot mask (some s) = (slot ≤ s) × (s < slot + count) × (mask s ≡ true)

later-IsLowest :
    (count slot : ℕ) (mask : Mask)
    → mask slot ≡ false
    → (r : Option ℕ) → IsLowest count (suc slot) mask r
    → IsLowest (suc count) slot mask r
later-IsLowest count slot mask taken none h = λ s low high. elim (ℕ-cases s slot) [
  | inl same ↦ rw (same) taken
  | inr other ↦ h s (ground (arith, other, low)) (omega (arith, high))
]
later-IsLowest count slot mask taken (some s) h = (omega (arith, h.0), omega (arith, h.1), h.2)

lowest_bit-IsLowest :
    (count slot : ℕ) (mask : Mask) → IsLowest count slot mask (lowest_bit count slot mask)
unfolding lowest_bit
lowest_bit-IsLowest zero slot mask = λ s low high. absurd (omega (arith, low, high))
lowest_bit-IsLowest (suc count) slot mask = elim (Bool-cases (mask slot)) [
  | inl free ↦ rw (free) (omega arith, omega arith, free)
  | inr taken ↦ rw (taken) (
      later-IsLowest count slot mask taken (lowest_bit count (suc slot) mask)
        (lowest_bit-IsLowest count (suc slot) mask))
]

abbrev Acquired : ℕ → ℕ → ObjectPool → Option Place × ObjectPool → Type 0
Acquired left attempts p (none, q) =
    (q ≡ p)
    × ((k s : ℕ)
        → attempts ≤ k
        → k < attempts + left
        → s < block_size
        → p.free_masks ((p.current_block + k) % p.num_blocks) s ≡ false)
Acquired left attempts p (some (b, s), q) =
    IsPlace p (b, s) × (p.free_masks b s ≡ true) × (q ≡ claim p b s)

later-Acquired :
    (left attempts : ℕ) (p : ObjectPool)
    → ((s : ℕ)
        → s < block_size
        → p.free_masks ((p.current_block + attempts) % p.num_blocks) s ≡ false)
    → (r : Option Place × ObjectPool) → Acquired left (suc attempts) p r
    → Acquired (suc left) attempts p r
later-Acquired left attempts p taken (none, q) h = (
  h.0,
  λ k s low high small. elim (ℕ-cases k attempts) [
    | inl same ↦ rw (same) (taken s small)
    | inr other ↦ h.1 k s (ground (arith, other, low)) (omega (arith, high)) small
  ],
)
later-Acquired left attempts p taken (some (b, s), q) h = h

claim_found-Acquired :
    (left attempts : ℕ) (p : ObjectPool) (found : Option ℕ) (later : Option Place × ObjectPool)
    → 0 < p.num_blocks
    → IsLowest block_size 0 (p.free_masks ((p.current_block + attempts) % p.num_blocks)) found
    → Acquired left (suc attempts) p later
    → Acquired
        (suc left)
        attempts
        p
        (claim_found p ((p.current_block + attempts) % p.num_blocks) found later)
unfolding claim_found
claim_found-Acquired left attempts p none later some_block taken h =
    later-Acquired left attempts p (λ s small. taken s (omega arith) (omega (arith, small))) later h
claim_found-Acquired left attempts p (some s) later some_block free h =
    ((omega (arith, some_block), omega (arith, free.1)), free.2, refl)

acquire_loop-Acquired :
    (left attempts : ℕ) (p : ObjectPool)
    → 0 < p.num_blocks
    → Acquired left attempts p (acquire_loop left attempts p)
unfolding acquire_loop
acquire_loop-Acquired zero attempts p some_block =
    (refl, λ k s low high small. absurd (omega (arith, low, high)))
acquire_loop-Acquired (suc left) attempts p some_block =
    let block = (p.current_block + attempts) % p.num_blocks in
    claim_found-Acquired left attempts p (lowest_bit block_size 0 (p.free_masks block))
      (acquire_loop left (suc attempts) p) some_block
      (lowest_bit-IsLowest block_size 0 (p.free_masks block))
      (acquire_loop-Acquired left (suc attempts) p some_block)

-- The attempt that comes to a block.
attempt : (start b n : ℕ) → start < n → b < n → (k : ℕ) × (k < n) × ((start + k) % n ≡ b)
attempt start b n h i = elim (Bool-cases (ltb b start)) [
  | inl above ↦
      let less : b < start = ground (arith, above) in
      let sum : start + (b + n - start) ≡ b + n = omega (arith, h) in
      (
        b + n - start,
        omega (arith, less, h),
        ap (λ x. x % n) sum ∙ add-mod_right b n ∙ mod-eq_of_lt i,
      )
  | inr below ↦
      let more : start ≤ b = ground (arith, below) in
      let sum : start + (b - start) ≡ b = omega (arith, more) in
      (b - start, omega (arith, i), ap (λ x. x % n) sum ∙ mod-eq_of_lt i)
]

-- What `acquire` hands out was free, and is taken; it finds nothing only if nothing is free.
abbrev Handed : ObjectPool → Option Place × ObjectPool → Type 0
Handed p (none, q) = (q ≡ p) × NoneFree p
Handed p (some (b, s), q) = IsPlace p (b, s) × (p.free_masks b s ≡ true) × (q ≡ claim p b s)

Acquired-Handed :
    (p : ObjectPool) (r : Option Place × ObjectPool)
    → p.current_block < p.num_blocks
    → Acquired p.num_blocks 0 p r
    → Handed p r
Acquired-Handed p (none, q) valid h = (
  h.0,
  λ b s inside small.
      let (k, early, at) = attempt p.current_block b p.num_blocks valid inside in
      subst (λ x. p.free_masks x s ≡ false) at (h.1 k s (omega arith) (omega (arith, early)) small),
)
Acquired-Handed p (some (b, s), q) valid h = h

acquire-Handed : (p : ObjectPool) → p.current_block < p.num_blocks → Handed p (acquire p)
unfolding acquire
acquire-Handed p valid =
    Acquired-Handed p (acquire p) valid
      (acquire_loop-Acquired p.num_blocks 0 p (omega (arith, valid)))

abbrev pub bit : Bool → ℕ
bit free = if free then 1 else 0

-- How often a place is in a list.
unfoldable pub occurrences : ℕ → ℕ → List Place → ℕ
occurrences b s [] = 0
occurrences b s ((c, t) ∷ places) = bit ((b == c) && (s == t)) + occurrences b s places

claim-bit :
    (p : ObjectPool) (b s c t : ℕ)
    → p.free_masks c t ≡ true
    → bit ((b == c) && (s == t)) + bit ((claim p c t).free_masks b s) ≡ bit (p.free_masks b s)
unfolding claim set_bit
claim-bit p b s c t free = elim (ℕ-cases b c) [
  | inl same ↦
      let itself : (c == c) ≡ true = ground arith in
      elim (ℕ-cases s t) [
        | inl here ↦
            let slot : (t == t) ≡ true = ground arith in rw (same, here, itself, slot, free) refl
        | inr there ↦ rw (same, itself, there) (omega arith)
      ]
  | inr other ↦ rw (other) (omega arith)
]

-- The number of blocks stays, the places are the pool's, there are at most `count`, and fewer only if
-- nothing is left that is free. A place that was free is handed out once or is still free, and one that
-- was not is neither.
abbrev pub IsBatch : ℕ → ObjectPool → List Place × ObjectPool → Type 0
IsBatch count p (places, q) =
    (q.num_blocks ≡ p.num_blocks)
    × All (IsPlace p) places
    × (length places ≤ count)
    × ((length places ≡ count) ⊎ NoneFree q)
    × ((b s : ℕ) → occurrences b s places + bit (q.free_masks b s) ≡ bit (p.free_masks b s))

batch_found-IsBatch :
    (count : ℕ) (p : ObjectPool) (found : Option Place × ObjectPool)
    (later : List Place × ObjectPool)
    → p.current_block < p.num_blocks
    → Handed p found
    → (found.1.current_block < found.1.num_blocks → IsBatch count found.1 later)
    → IsBatch (suc count) p (batch_found found later)
unfolding batch_found occurrences claim set_bit
batch_found-IsBatch count p (none, q) later valid handed rest =
    let (same, nothing) = handed in
    subst (λ q. IsBatch (suc count) p ([], q)) (sym same)
      (refl, tt, omega arith, inr nothing, λ b s. omega arith)
batch_found-IsBatch count p (some (c, t), q) (places, q') valid handed rest =
    let (inside, free, claimed) = handed in
    let valid' : q.current_block < q.num_blocks =
      subst (λ q. q.current_block < q.num_blocks) (sym claimed) inside.0 in
    let h = subst (λ x. IsBatch count x (places, q')) claimed (rest valid') in
    (
      h.0,
      (inside, h.1),
      omega (arith, h.2),
      elim h.3 [ inl all ↦ inl (ap suc all) | inr nothing ↦ inr nothing ],
      λ b s. omega (arith, h.4 b s, claim-bit p b s c t free),
    )

-- A batch from a pool that has blocks has distinct places of the pool that were free and are no longer,
-- all other places are as they were, and the batch is shorter than asked for only if the pool has
-- nothing left that is free.
pub batch_acquire-IsBatch :
    (count : ℕ) (p : ObjectPool)
    → p.current_block < p.num_blocks
    → IsBatch count p (batch_acquire count p)
unfolding batch_acquire occurrences
batch_acquire-IsBatch zero p valid = (refl, tt, omega arith, inl refl, λ b s. omega arith)
batch_acquire-IsBatch (suc count) p valid =
    batch_found-IsBatch count p (acquire p) (batch_acquire count (acquire p).1) valid
      (acquire-Handed p valid) (batch_acquire-IsBatch count (acquire p).1)
