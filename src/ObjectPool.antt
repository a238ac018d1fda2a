-- ===== src/ObjectPool.antt =====
-- `OptimizedObjectPool` of include/object_pool.hpp, as one thread at a time uses it: the free masks of
-- the blocks, and the block that was used last. A place is a block and a slot of it.
mod Acquire
mod Tests
use nasdaq_order_book.Base.{
  ℕ, zero, suc, ◌+◌, ◌/◌, ◌%◌, Bool, true, false, ◌&&◌, Option, none, some, List, [], ◌∷◌, ltb,
  if◌then◌else◌, update,
}

abbrev pub block_size : ℕ
block_size = 64

-- A mask is its bits; those from 64 on are of no block.
abbrev pub Mask : Type 0
Mask = ℕ → Bool

pub record ObjectPool : Type 0 where
  pub free_masks : ℕ → Mask
  pub num_blocks : ℕ
  pub current_block : ℕ

abbrev pub Place : Type 0
Place = ℕ × ℕ

unfoldable pub new_pool : ℕ → ObjectPool
new_pool total_objects = record {
  free_masks = λ b. λ s. true;
  num_blocks = (total_objects + 63) / 64;
  current_block = 0;
}

-- `__builtin_ctzll` of a mask that is not 0: the lowest of the `count` bits from `slot` on that is set
unfoldable pub lowest_bit : ℕ → ℕ → Mask → Option ℕ
lowest_bit zero slot mask = none
lowest_bit (suc count) slot mask =
    let rest = lowest_bit count (suc slot) mask in if mask slot then some slot else rest

unfoldable pub set_bit : ObjectPool → ℕ → ℕ → Bool → ObjectPool
set_bit p block slot bit = record p {
  free_masks = update p.free_masks block (update (p.free_masks block) slot bit);
}

unfoldable pub claim : ObjectPool → ℕ → ℕ → ObjectPool
unfolding set_bit
claim p block slot = record (set_bit p block slot false) { current_block = block }

-- The body of the loop over the blocks: a slot of this block, or what the further blocks give.
unfoldable pub claim_found :
    ObjectPool → ℕ → Option ℕ → Option Place × ObjectPool → Option Place × ObjectPool
unfolding claim
claim_found p block none later = later
claim_found p block (some slot) later = (some (block, slot), claim p block slot)

-- The attempts that are left and those that are made. Alone, the exchange of the mask succeeds.
unfoldable pub acquire_loop : ℕ → ℕ → ObjectPool → Option Place × ObjectPool
unfolding lowest_bit claim_found
acquire_loop zero attempts p = (none, p)
acquire_loop (suc left) attempts p =
    let block = (p.current_block + attempts) % p.num_blocks in
    claim_found p block (lowest_bit block_size 0 (p.free_masks block))
      (acquire_loop left (suc attempts) p)

unfoldable pub acquire : ObjectPool → Option Place × ObjectPool
unfolding acquire_loop
acquire p = acquire_loop p.num_blocks 0 p

-- The loop finds the block that holds the object, if one does.
unfoldable pub release : ObjectPool → Place → ObjectPool
unfolding set_bit
release p (block, slot) =
    if ltb block p.num_blocks && ltb slot block_size then set_bit p block slot true else p

unfoldable pub batch_found :
    Option Place × ObjectPool → List Place × ObjectPool → List Place × ObjectPool
batch_found (none, p) later = ([], p)
batch_found (some place, p) (places, q) = (place ∷ places, q)

-- The loop of `batch_acquire`, which ends early when the pool has no more.
unfoldable pub batch_acquire : ℕ → ObjectPool → List Place × ObjectPool
unfolding acquire batch_found
batch_acquire zero p = ([], p)
batch_acquire (suc count) p = let r = acquire p in batch_found r (batch_acquire count r.1)
