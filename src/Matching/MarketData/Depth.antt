-- ===== src/Matching/MarketData/Depth.antt =====
-- The depth of the book that `get_level2_data` reports.
use nasdaq_order_book.Base.{
  ℕ, zero, suc, ◌+◌, ◌-◌, ◌≤◌, ◌<◌, ◌≡◌, ◌⊎◌, inl, inr, refl, true, false, some, List, [], ◌∷◌,
  ◌==◌, ltb, if◌then◌else◌, u32_mod, sub32, add32, ap, ◌∙◌, arith, Bool-cases, min,
}
use nasdaq_order_book.Base.Assoc.{lookup}
use nasdaq_order_book.Ultra.Book.{
  UltraBook, ultra_get_best_bid, ultra_get_best_ask, ultra_min_price, ultra_max_price,
}
use nasdaq_order_book.Ultra.Book.Best.{ultra_get_best_bid-IsBestBid, ultra_get_best_ask-IsBestAsk}
use nasdaq_order_book.Matching.Engine.{Engine}
use nasdaq_order_book.Matching.MarketData.{
  PriceLevel, get_level1_data, bid_levels, ask_levels, side_levels, get_level2_data,
  simulated_quantity,
}

abbrev pub prices : List PriceLevel → List ℕ
prices [] = []
prices (l ∷ ls) = l.price ∷ prices ls

-- `n` numbers from `p` down
unfoldable pub down : ℕ → ℕ → List ℕ
down p zero = []
down p (suc n) = p ∷ down (p - 1) n

-- `n` numbers from `p` up
unfoldable pub up : ℕ → ℕ → List ℕ
up p zero = []
up p (suc n) = p ∷ up (p + 1) n

-- How many levels a side shows: none without a price, and else at least one and at most five.
abbrev pub shown : ℕ → ℕ → ℕ
shown best depth = if best == 0 then 0 else if depth == 0 then 1 else min depth 5

bid_levels_lem :
    (n best depth i : ℕ)
    → i + n ≤ best
    → best < u32_mod
    → prices (bid_levels n best depth i) ≡ down (best - i) (min n (depth - i))
unfolding bid_levels down
bid_levels_lem zero best depth i h wide =
    let none_left : min 0 (depth - i) ≡ 0 = omega arith in rw none_left refl
bid_levels_lem (suc n) best depth i h wide = elim (Bool-cases (ltb i depth)) [
  | inr stop ↦ let no_more : min (suc n) (depth - i) ≡ 0 = ground arith in rw (stop, no_more) refl
  | inl go ↦
      let price : sub32 best i ≡ best - i = omega (arith, h, wide) in
      let count : min (suc n) (depth - i) ≡ suc (min n (depth - (i + 1))) = ground arith in
      let there : ltb 0 (best - i) ≡ true = ground arith in
      let next : best - (i + 1) ≡ best - i - 1 = omega arith in
      let rest = bid_levels_lem n best depth (i + 1) (omega arith) wide in
      rw (go, price, there, count)
        (ap (λ l. (best - i) ∷ l) (rest ∙ ap (λ p. down p (min n (depth - (i + 1)))) next))
]

ask_levels_lem :
    (n best depth i : ℕ)
    → best + i + n < u32_mod
    → prices (ask_levels n best depth i) ≡ up (best + i) (min n (depth - i))
unfolding ask_levels up
ask_levels_lem zero best depth i h =
    let none_left : min 0 (depth - i) ≡ 0 = omega arith in rw none_left refl
ask_levels_lem (suc n) best depth i h = elim (Bool-cases (ltb i depth)) [
  | inr stop ↦ let no_more : min (suc n) (depth - i) ≡ 0 = ground arith in rw (stop, no_more) refl
  | inl go ↦
      let price : add32 best i ≡ best + i = omega (arith, h) in
      let count : min (suc n) (depth - i) ≡ suc (min n (depth - (i + 1))) = ground arith in
      let next : best + (i + 1) ≡ best + i + 1 = omega arith in
      let rest = ask_levels_lem n best depth (i + 1) (omega arith) in
      rw (go, price, count)
        (ap (λ l. (best + i) ∷ l) (rest ∙ ap (λ p. up p (min n (depth - (i + 1)))) next))
]

-- The best prices of a book lie in its band, or are 0.
bid_range :
    (book : UltraBook)
    → (ultra_get_best_bid book ≡ 0)
      ⊎ ((ultra_min_price ≤ ultra_get_best_bid book) × (ultra_get_best_bid book ≤ ultra_max_price))
bid_range book = ground (arith, ultra_get_best_bid-IsBestBid book)

ask_range :
    (book : UltraBook)
    → (ultra_get_best_ask book ≡ 0)
      ⊎ ((ultra_min_price ≤ ultra_get_best_ask book) × (ultra_get_best_ask book ≤ ultra_max_price))
ask_range book = ground (arith, ultra_get_best_ask-IsBestAsk book)

bid_side :
    (best quantity depth : ℕ)
    → (best ≡ 0) ⊎ ((ultra_min_price ≤ best) × (best ≤ ultra_max_price))
    → prices (side_levels best quantity (bid_levels 4 best depth 1)) ≡ down best (shown best depth)
unfolding side_levels down
bid_side best quantity depth h = elim h [
  | inl none_there ↦ rw none_there refl
  | inr (above, below) ↦
      let priced : ltb 0 best ≡ true = ground arith in
      let some_there : (best == 0) ≡ false = ground arith in
      let count : (if depth == 0 then 1 else min depth 5) ≡ suc (min 4 (depth - 1)) =
        ground arith in
      rw (priced, some_there, count)
        (ap (λ l. best ∷ l) (bid_levels_lem 4 best depth 1 (omega arith) (omega arith)))
]

ask_side :
    (best quantity depth : ℕ)
    → (best ≡ 0) ⊎ ((ultra_min_price ≤ best) × (best ≤ ultra_max_price))
    → prices (side_levels best quantity (ask_levels 4 best depth 1)) ≡ up best (shown best depth)
unfolding side_levels up
ask_side best quantity depth h = elim h [
  | inl none_there ↦ rw none_there refl
  | inr (above, below) ↦
      let priced : ltb 0 best ≡ true = ground arith in
      let some_there : (best == 0) ≡ false = ground arith in
      let count : (if depth == 0 then 1 else min depth 5) ≡ suc (min 4 (depth - 1)) =
        ground arith in
      rw (priced, some_there, count)
        (ap (λ l. best ∷ l) (ask_levels_lem 4 best depth 1 (omega arith)))
]

-- Of a known symbol, a side without a price shows no level, and a side with one shows `depth`
-- levels, but at least one and at most five. Their prices begin at the best one and go away from it
-- by 1 at each level, whatever levels the book has.
pub get_level2_data_lem :
    (e : Engine) (symbol depth : ℕ) (book : UltraBook)
    → lookup symbol e.order_books ≡ some book
    → let bid = ultra_get_best_bid book in
      let ask = ultra_get_best_ask book in
      let d = get_level2_data e symbol depth in
      (prices d.bids ≡ down bid (shown bid depth)) × (prices d.asks ≡ up ask (shown ask depth))
unfolding get_level2_data get_level1_data
get_level2_data_lem e symbol depth book known =
    rw (known, get_level1_data)
      (
        bid_side (ultra_get_best_bid book) (simulated_quantity (ultra_get_best_bid book)) depth
            (bid_range book),
        ask_side (ultra_get_best_ask book) (simulated_quantity (ultra_get_best_ask book)) depth
            (ask_range book),
      )
