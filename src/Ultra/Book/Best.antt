-- ===== src/Ultra/Book/Best.antt =====
-- `ultra_getBestBid` and `ultra_getBestAsk`.
use nasdaq_order_book.Base.{
  ℕ, zero, suc, ◌+◌, ◌≤◌, ◌<◌, ◌≡◌, ◌⊎◌, refl, inl, inr, arith, ltb, Bool-cases, ℕ-cases,
}
use nasdaq_order_book.Ultra.Book.{
  UltraBook, Levels, ultra_min_price, ultra_price_levels, best_bid_loop, best_ask_loop,
  ultra_get_best_bid, ultra_get_best_ask,
}

abbrev pub total : Levels → ℕ → ℕ
total ls i = (ls i).total_quantity

-- `r` is the price of the highest level below `n` with a quantity, or 0 where there is none.
abbrev pub IsBestBid : Levels → ℕ → ℕ → Type 0
IsBestBid ls n r =
    ((r ≡ 0) × ((j : ℕ) → j < n → total ls j ≡ 0))
    ⊎ ((i : ℕ) × (i < n)
        × (r ≡ ultra_min_price + i)
        × (0 < total ls i)
        × ((j : ℕ) → i < j → j < n → total ls j ≡ 0))

-- `r` is the price of the lowest level from `from` on and below `n` with a quantity, or 0.
abbrev pub IsBestAsk : Levels → ℕ → ℕ → ℕ → Type 0
IsBestAsk ls from n r =
    ((r ≡ 0) × ((j : ℕ) → from ≤ j → j < n → total ls j ≡ 0))
    ⊎ ((i : ℕ) × (i < n)
        × (r ≡ ultra_min_price + i)
        × (0 < total ls i)
        × ((j : ℕ) → from ≤ j → j < i → total ls j ≡ 0))

best_bid_loop-IsBestBid : (n : ℕ) (ls : Levels) → IsBestBid ls n (best_bid_loop n ls)
unfolding best_bid_loop
best_bid_loop-IsBestBid zero ls = inl (refl, λ j h. absurd (omega arith))
best_bid_loop-IsBestBid (suc n) ls = elim (Bool-cases (ltb 0 (total ls n))) [
  | inl busy ↦ rw busy (inr (n, omega arith, refl, ground arith, λ j p q. absurd (omega arith)))
  | inr idle ↦ rw idle (elim (best_bid_loop-IsBestBid n ls) [
    | inl (z, all) ↦ inl (
      z,
      λ j h. elim (ℕ-cases j n) [
        | inl last ↦ rw last (ground arith)
        | inr other ↦ all j (ground arith)
      ],
    )
    | inr (i, h, r, pos, above) ↦ inr (
      i,
      omega arith,
      r,
      pos,
      λ j p q. elim (ℕ-cases j n) [
        | inl last ↦ rw last (ground arith)
        | inr other ↦ above j p (ground arith)
      ],
    )
  ])
]

best_ask_loop-IsBestAsk :
    (k : ℕ) (ls : Levels) (i n : ℕ) → i + k ≡ n → IsBestAsk ls i n (best_ask_loop k ls i)
unfolding best_ask_loop
best_ask_loop-IsBestAsk zero ls i n e = inl (refl, λ j p q. absurd (omega arith))
best_ask_loop-IsBestAsk (suc k) ls i n e = elim (Bool-cases (ltb 0 (total ls i))) [
  | inl busy ↦ rw busy (inr (i, omega arith, refl, ground arith, λ j p q. absurd (omega arith)))
  | inr idle ↦ rw idle (elim (best_ask_loop-IsBestAsk k ls (i + 1) n (omega arith)) [
    | inl (z, all) ↦ inl (
      z,
      λ j p q. elim (ℕ-cases j i) [
        | inl first ↦ rw first (ground arith)
        | inr other ↦ all j (ground arith) q
      ],
    )
    | inr (m, h, r, pos, below) ↦ inr (
      m,
      h,
      r,
      pos,
      λ j p q. elim (ℕ-cases j i) [
        | inl first ↦ rw first (ground arith)
        | inr other ↦ below j (ground arith) q
      ],
    )
  ])
]

-- The bid is the price of the highest level with a quantity, and 0 exactly if there is none.
pub ultra_get_best_bid-IsBestBid :
    (b : UltraBook) → IsBestBid b.bid_levels ultra_price_levels (ultra_get_best_bid b)
unfolding ultra_get_best_bid
ultra_get_best_bid-IsBestBid b = best_bid_loop-IsBestBid ultra_price_levels b.bid_levels

-- The ask is the price of the lowest level with a quantity, and 0 exactly if there is none.
pub ultra_get_best_ask-IsBestAsk :
    (b : UltraBook) → IsBestAsk b.ask_levels 0 ultra_price_levels (ultra_get_best_ask b)
unfolding ultra_get_best_ask
ultra_get_best_ask-IsBestAsk b =
    best_ask_loop-IsBestAsk ultra_price_levels b.ask_levels 0 ultra_price_levels refl
