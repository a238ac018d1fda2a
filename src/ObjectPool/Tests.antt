-- ===== src/ObjectPool/Tests.antt =====
-- Runs of the pool.
use nasdaq_order_book.Base.{◌≡◌, refl, some, [], ◌∷◌, ◌==◌, ◌&&◌, arith}
use nasdaq_order_book.ObjectPool.{
  ObjectPool, new_pool, acquire, release, batch_acquire, lowest_bit, acquire_loop, claim_found,
  claim, set_bit, batch_found,
}
use nasdaq_order_book.ObjectPool.Acquire.{IsBatch, batch_acquire-IsBatch}

takes_in_order : (batch_acquire 2 (new_pool 70)).0 ≡ (0, 0) ∷ (0, 1) ∷ []
unfolding batch_acquire new_pool acquire acquire_loop lowest_bit claim_found claim set_bit
    batch_found
takes_in_order = refl

abbrev three_blocks : ObjectPool
three_blocks = record {
  free_masks = λ b. λ s. (b == 1) && (s == 5);
  num_blocks = 3;
  current_block = 2;
}

goes_round : (acquire three_blocks).0 ≡ some (1, 5)
unfolding acquire acquire_loop lowest_bit claim_found claim set_bit
goes_round = refl

batch_acquire-IsBatch_example : IsBatch 2 three_blocks (batch_acquire 2 three_blocks)
batch_acquire-IsBatch_example = batch_acquire-IsBatch 2 three_blocks (omega arith)

comes_back : (acquire (release (acquire three_blocks).1 (1, 5))).0 ≡ some (1, 5)
unfolding acquire release acquire_loop lowest_bit claim_found claim set_bit
comes_back = refl
