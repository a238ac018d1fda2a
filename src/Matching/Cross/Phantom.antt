-- ===== src/Matching/Cross/Phantom.antt =====
-- `attempt_cross` trades with simulated passive orders, whose identifiers come from the trade
-- counter: what that means for the book.
use nasdaq_order_book.Base.{
  ℕ, zero, suc, ◌+◌, ◌-◌, ◌*◌, ◌≤◌, ◌<◌, ◌≡◌, ◌≢◌, inl, inr, refl, ◌∙◌, Bool, true, false, none,
  List, arith, u64_mod, Bool-cases,
}
use nasdaq_order_book.Ultra.Table.{ultra_find}
use nasdaq_order_book.Ultra.Book.{UltraBook, ultra_execute_order}
use nasdaq_order_book.Matching.Types.{Order, Fill, is_fully_filled}
use nasdaq_order_book.Matching.Cross.{
  Crossing, best_price, can_execute, is_ioc, trade, goes_on, cross_loop, attempt_cross,
}
use nasdaq_order_book.Matching.Cross.Fills.{
  IsOrder, IsCrossing, start-IsCrossing, trade-IsCrossing, trade_progress,
}

-- No order of the book has one of the next `n` identifiers of simulated orders.
abbrev pub NoneSimulated : UltraBook → ℕ → ℕ → Type 0
NoneSimulated book next n =
    (k : ℕ) → next ≤ k → k < next + 2 * n → ultra_find book.order_hash (k + 1000000) ≡ none

module _ (o : Order) (valid : IsOrder o) (callback : Bool) where
  trade-book :
      (c : Crossing) (n : ℕ)
      → 0 < n
      → c.next_trade_id + 2 * n + 1000000 < u64_mod
      → NoneSimulated c.book c.next_trade_id n
      → ((trade callback (best_price c.order.side c.book) c).book ≡ c.book)
        × ((trade callback (best_price c.order.side c.book) c).next_trade_id ≡ c.next_trade_id + 2)
  unfolding trade ultra_execute_order
  trade-book c n pos small unused = ground (arith, unused c.next_trade_id)

  full_of_stop :
      (c : Crossing)
      → IsCrossing o c
      → goes_on c ≡ false
      → best_price o.side c.book ≢ 0
      → can_execute o.type o.side o.price (best_price o.side c.book) ≡ true
      → c.order.filled_quantity ≡ o.quantity
  unfolding goes_on is_fully_filled
  full_of_stop c inv stop priced crosses = ground (arith, inv.same_order, inv.bounded)

  cross_loop-fills :
      (n : ℕ) (c : Crossing)
      → IsCrossing o c
      → o.quantity - c.order.filled_quantity < n
      → c.next_trade_id + 2 * n + 1000000 < u64_mod
      → NoneSimulated c.book c.next_trade_id n
      → best_price o.side c.book ≢ 0
      → can_execute o.type o.side o.price (best_price o.side c.book) ≡ true
      → is_ioc o.tif ≡ false
      → ((cross_loop n callback c).order.filled_quantity ≡ o.quantity)
        × ((cross_loop n callback c).book ≡ c.book)
  unfolding cross_loop
  cross_loop-fills zero c inv h small unused priced crosses tif = absurd (omega arith)
  cross_loop-fills (suc n) c inv h small unused priced crosses tif = elim (Bool-cases (goes_on c)) [
    | inr stop ↦ rw stop (full_of_stop c inv stop priced crosses, refl)
    | inl go ↦
        let tif' : is_ioc c.order.tif ≡ false = ground (arith, inv.same_order) in
        let c' = trade callback (best_price c.order.side c.book) c in
        let (book, next) = trade-book c (suc n) (omega arith) small unused in
        let (full, kept) =
          cross_loop-fills n c' (trade-IsCrossing o valid callback c go inv)
            (omega (arith, trade_progress o valid callback c go inv)) (omega (arith, next))
            (λ k lo hi. rw book (unused k (omega (arith, next)) (omega (arith, next))))
            (rw book priced) (rw book crosses) tif in
        rw (go, tif') (full, kept ∙ book)
  ]

  -- Whatever quantity rests: an order of 32 bits, not overfilled, that is not `IOC` and crosses the best price is filled in
  -- full, and the book stays as it was, if no order of the book has the identifier of a simulated
  -- one and the counter does not wrap.
  pub crossing_order_fills :
      (book : UltraBook) (next_trade_id : ℕ) (notified : List Fill)
      → next_trade_id + 2 * suc o.quantity + 1000000 < u64_mod
      → NoneSimulated book next_trade_id (suc o.quantity)
      → best_price o.side book ≢ 0
      → can_execute o.type o.side o.price (best_price o.side book) ≡ true
      → is_ioc o.tif ≡ false
      → ((attempt_cross callback o book next_trade_id notified).order.filled_quantity ≡ o.quantity)
        × ((attempt_cross callback o book next_trade_id notified).book ≡ book)
  unfolding attempt_cross
  crossing_order_fills book next_trade_id notified small unused priced crosses tif =
      cross_loop-fills (suc o.quantity) _
        (start-IsCrossing o valid callback book next_trade_id notified) (omega arith) small unused
        priced crosses tif
