-- ===== src/Matching/Cross/Fills.antt =====
-- The fills of `attempt_cross`: quantities add up, prices respect the limit, and the loop ends.
use nasdaq_order_book.Base.{
  ℕ, zero, suc, ◌+◌, ◌-◌, ◌≤◌, ◌<◌, ◌≡◌, ◌≢◌, ◌⊎◌, ◌↔◌, inl, inr, refl, Bool, true, false, List, [],
  ◌∷◌, ◌++◌, arith, u32_mod, add64, Bool-cases, All, All-append,
}
use nasdaq_order_book.Ultra.Book.{UltraBook}
use nasdaq_order_book.Matching.Types.{Order, Fill, filled, new, remaining_quantity, is_fully_filled}
use nasdaq_order_book.Matching.Cross.{
  Crossing, best_price, can_execute, is_ioc, trade_quantity, create_fill, trade, goes_on,
  cross_loop, cross_status, attempt_cross,
}

abbrev pub volume : List Fill → ℕ
volume [] = 0
volume (f ∷ fs) = f.execution_quantity + volume fs

volume-append : (fs gs : List Fill) → volume (fs ++ gs) ≡ volume fs + volume gs
volume-append [] gs = omega arith
volume-append (f ∷ fs) gs = omega (arith, volume-append fs gs)

-- A fill of `o`: it names the order, trades between 1 and 100, and at a price that crosses.
pub record IsFillOf (o : Order) (f : Fill) : Type 0 where
  pub aggressor : f.aggressive_order_id ≡ o.id
  pub symbol : f.symbol ≡ o.symbol
  pub positive : 0 < f.execution_quantity
  pub at_most : f.execution_quantity ≤ 100
  pub priced : f.execution_price ≢ 0
  pub crosses : can_execute o.type o.side o.price f.execution_price ≡ true

-- What a crossing that began with the order `o` satisfies at any time.
pub record IsCrossing (o : Order) (c : Crossing) : Type 0 where
  pub same_order : c.order ≡ record o { filled_quantity = c.order.filled_quantity }
  pub bounded : c.order.filled_quantity ≤ o.quantity
  pub conserved : c.order.filled_quantity ≡ o.filled_quantity + c.total_filled
  pub summed : volume c.fills ≡ c.total_filled
  pub fills : All (IsFillOf o) c.fills

-- The quantities of an order are `uint32_t` and it is not overfilled.
pub record IsOrder (o : Order) : Type 0 where
  pub narrow : o.quantity < u32_mod
  pub open_part : o.filled_quantity ≤ o.quantity

pub going_lem :
    (c : Crossing)
    → goes_on c ≡ true
    → (c.order.filled_quantity < c.order.quantity)
      × (best_price c.order.side c.book ≢ 0)
      × (can_execute c.order.type c.order.side c.order.price (best_price c.order.side c.book)
          ≡ true)
unfolding goes_on is_fully_filled
going_lem c h = ground arith

pub trade_quantity_lem :
    (o : Order)
    → o.quantity < u32_mod
    → o.filled_quantity < o.quantity
    → (0 < trade_quantity o)
      × (trade_quantity o ≤ 100)
      × (o.filled_quantity + trade_quantity o ≤ o.quantity)
unfolding trade_quantity remaining_quantity
trade_quantity_lem o narrow open_part = omega arith

module _ (o : Order) (valid : IsOrder o) (callback : Bool) where
  pub trade-IsCrossing :
      (c : Crossing)
      → goes_on c ≡ true
      → IsCrossing o c
      → IsCrossing o (trade callback (best_price c.order.side c.book) c)
  unfolding trade create_fill
  trade-IsCrossing c go inv =
      let (less, priced, crosses) = going_lem c go in
      let kept = inv.same_order in
      let narrow : c.order.quantity < u32_mod = ground (arith, valid.narrow) in
      let (pos, most, room) = trade_quantity_lem c.order narrow less in
      let best = best_price c.order.side c.book in
      let fill =
        create_fill c.order (add64 c.next_trade_id 1000000) best (trade_quantity c.order)
          (add64 c.next_trade_id 1) in
      record {
        same_order = ground arith;
        bounded = ground arith;
        conserved = ground (arith, valid.narrow);
        summed = ground (arith, volume-append c.fills (fill ∷ []), valid.narrow);
        fills = All-append (IsFillOf o) c.fills (fill ∷ []) inv.fills (
          record {
            aggressor = ground arith;
            symbol = ground arith;
            positive = pos;
            at_most = most;
            priced = priced;
            crosses = ground arith;
          },
          tt,
        );
      }

  pub trade_progress :
      (c : Crossing)
      → goes_on c ≡ true
      → IsCrossing o c
      → (c.order.filled_quantity
          < (trade callback (best_price c.order.side c.book) c).order.filled_quantity)
        × (c.order.filled_quantity < o.quantity)
  unfolding trade
  trade_progress c go inv =
      let (less, priced, crosses) = going_lem c go in
      let kept = inv.same_order in
      let narrow : c.order.quantity < u32_mod = ground (arith, valid.narrow) in
      ground (arith, trade_quantity_lem c.order narrow less, valid.narrow)

  cross_loop-IsCrossing :
      (n : ℕ) (c : Crossing) → IsCrossing o c → IsCrossing o (cross_loop n callback c)
  unfolding cross_loop
  cross_loop-IsCrossing zero c inv = inv
  cross_loop-IsCrossing (suc n) c inv = elim (Bool-cases (goes_on c)) [
    | inr stop ↦ rw stop inv
    | inl go ↦ elim (Bool-cases (is_ioc c.order.tif)) [
      | inl once ↦ rw (go, once) (trade-IsCrossing c go inv)
      | inr again ↦
          rw (go, again)
            (cross_loop-IsCrossing n (trade callback (best_price c.order.side c.book) c)
              (trade-IsCrossing c go inv))
    ]
  ]

  -- With more fuel than the order has open, the loop ends by its own tests.
  cross_loop-Ends :
      (n : ℕ) (c : Crossing)
      → IsCrossing o c
      → o.quantity - c.order.filled_quantity < n
      → (goes_on (cross_loop n callback c) ≡ false) ⊎ (is_ioc o.tif ≡ true)
  unfolding cross_loop
  cross_loop-Ends zero c inv h = absurd (omega arith)
  cross_loop-Ends (suc n) c inv h = elim (Bool-cases (goes_on c)) [
    | inr stop ↦ rw stop (inl stop)
    | inl go ↦ elim (Bool-cases (is_ioc c.order.tif)) [
      | inl once ↦ inr (ground (arith, inv.same_order))
      | inr again ↦
          let c' = trade callback (best_price c.order.side c.book) c in
          let inv' = trade-IsCrossing c go inv in
          rw (go, again) (cross_loop-Ends n c' inv' (omega (arith, trade_progress c go inv)))
    ]
  ]

  pub start-IsCrossing :
      (book : UltraBook) (next_trade_id : ℕ) (notified : List Fill)
      → IsCrossing o (record {
        order = o;
        book = book;
        next_trade_id = next_trade_id;
        notified = notified;
        fills = [];
        total_filled = 0;
      })
  start-IsCrossing book next_trade_id notified = record {
    same_order = refl;
    bounded = valid.open_part;
    conserved = omega arith;
    summed = refl;
    fills = tt;
  }

  module _ (book : UltraBook) (next_trade_id : ℕ) (notified : List Fill) where
    -- Of an order of 32 bits that is not overfilled: it is changed in its filled quantity only, which stays within its quantity; the
    -- quantities of the fills add up to the total that is reported and to what the order gained;
    -- and every fill names the order, trades 1 to 100, and has a price that the order accepts.
    pub attempt_cross-IsCrossing :
        IsCrossing o (attempt_cross callback o book next_trade_id notified)
    unfolding attempt_cross
    attempt_cross-IsCrossing =
        cross_loop-IsCrossing (suc o.quantity) _ (start-IsCrossing book next_trade_id notified)

    -- The rounds that `attempt_cross` is given are enough for an order of 32 bits that is not
    -- overfilled: unless the order is `IOC`, it stops
    -- because the order is full, there is no price, or the best price does not cross.
    pub attempt_cross_ends :
        (goes_on (attempt_cross callback o book next_trade_id notified) ≡ false)
        ⊎ (is_ioc o.tif ≡ true)
    unfolding attempt_cross
    attempt_cross_ends =
        cross_loop-Ends (suc o.quantity) _ (start-IsCrossing book next_trade_id notified)
          (omega arith)

    -- Of an order of 32 bits that is not overfilled, the status says `FILLED` exactly if the order is full, and otherwise whether anything traded.
    pub cross_status_lem :
        let c = attempt_cross callback o book next_trade_id notified in
        ((cross_status c ≡ filled) ↔ (c.order.filled_quantity ≡ o.quantity))
        × ((cross_status c ≡ new) ↔ ((c.order.filled_quantity < o.quantity) × (volume c.fills ≡ 0)))
    unfolding cross_status is_fully_filled
    cross_status_lem =
        let inv = attempt_cross-IsCrossing in
        ground (arith, inv.same_order, inv.bounded, inv.summed)
