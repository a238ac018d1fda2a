-- ===== src/Matching/Engine/Active.antt =====
-- `active_orders_` holds open orders only, under their own identifiers.
use nasdaq_order_book.Base.{
  ℕ, ◌+◌, ◌≤◌, ◌<◌, ◌≡◌, inl, inr, Bool, false, some, List, [], ◌∷◌, arith, ◌==◌, u32_mod,
  Bool-cases, ℕ-cases, Option-cases, All,
}
use nasdaq_order_book.Base.Assoc.{lookup, insert, lookup-insert, lookup-erase}
use nasdaq_order_book.Ultra.Order.{UltraOrder}
use nasdaq_order_book.Ultra.Book.{UltraBook}
use nasdaq_order_book.Matching.Types.{Order, OrderType, market, limit, Fill, is_fully_filled}
use nasdaq_order_book.Matching.Cross.{cross_result}
use nasdaq_order_book.Matching.Cross.Fills.{IsOrder, IsFillOf, volume, attempt_cross-IsCrossing}
use nasdaq_order_book.Matching.Engine.{
  Engine, Processed, init, process_market_order, rest_order, kill_order, process_limit_order, route,
  update_order_status, settle, get_or_create_book, process_order, cancel_order, replace_order,
  add_symbol, cancel_all, remove_symbol, orders_of, get_order,
}

-- An order that waits in the engine under `id`.
pub record IsOpen (id : ℕ) (o : Order) : Type 0 where
  pub own_id : o.id ≡ id
  pub some_left : o.filled_quantity < o.quantity
  pub narrow : o.quantity < u32_mod

pub record IsEngine (e : Engine) : Type 0 where
  pub active : (id : ℕ) (o : Order) → lookup id e.active_orders ≡ some o → IsOpen id o

-- What a helper of `process_order` leaves of the order `o`.
pub record IsResult (o : Order) (r : Processed) : Type 0 where
  pub own_id : r.crossing.order.id ≡ o.id
  pub quantity : r.crossing.order.quantity ≡ o.quantity
  pub bounded : r.crossing.order.filled_quantity ≤ o.quantity
  pub conserved : r.crossing.order.filled_quantity ≡ o.filled_quantity + r.result.total_filled
  pub summed : volume r.result.fills ≡ r.result.total_filled
  pub fills : All (IsFillOf o) r.result.fills

module _ (o : Order) (valid : IsOrder o) (callback : Bool) (book : UltraBook) (next : ℕ)
    (notified : List Fill) where
  market-IsResult : IsResult o (process_market_order callback o book next notified)
  unfolding process_market_order cross_result
  market-IsResult =
      let inv = attempt_cross-IsCrossing o valid callback book next notified in
      record {
        own_id = ground (arith, inv.same_order);
        quantity = ground (arith, inv.same_order);
        bounded = inv.bounded;
        conserved = inv.conserved;
        summed = inv.summed;
        fills = inv.fills;
      }

  rest-IsResult : (r : Processed) → IsResult o r → IsResult o (rest_order r)
  unfolding rest_order
  rest-IsResult r inv = ground arith

  kill-IsResult : (r : Processed) → IsResult o r → IsResult o (kill_order r)
  unfolding kill_order
  kill-IsResult r inv = ground arith

  pub route-IsResult : (type : OrderType) → IsResult o (route type callback o book next notified)
  unfolding route process_limit_order
  route-IsResult market = market-IsResult
  route-IsResult limit = kill-IsResult _ (rest-IsResult _ market-IsResult)

settle-IsOpen :
    (o : Order) (m : List (ℕ × Order)) (id : ℕ) (p : Order)
    → ((j : ℕ) (q : Order) → (j == o.id) ≡ false → lookup j m ≡ some q → IsOpen j q)
    → o.quantity < u32_mod
    → lookup id (settle o m) ≡ some p
    → IsOpen id p
unfolding settle is_fully_filled
settle-IsOpen o m id p others narrow e = elim (ℕ-cases id o.id) [
  | inl same ↦ ground (arith, lookup-insert o.id id o m, lookup-erase o.id id m)
  | inr other ↦
      others id p other (ground (arith, lookup-insert o.id id o m, lookup-erase o.id id m))
]

update_order_status_lem :
    (o : Order)
    → ((update_order_status o).id ≡ o.id)
      × ((update_order_status o).quantity ≡ o.quantity)
      × ((update_order_status o).filled_quantity ≡ o.filled_quantity)
unfolding update_order_status
update_order_status_lem o = ground arith

module _ (garbage : ℕ → UltraOrder) (capacity : ℕ) where
  -- `process_order` leaves only open orders in `active_orders_`.
  pub process_order-IsEngine :
      (e : Engine) (o : Order)
      → IsOrder o
      → IsEngine e
      → IsEngine (process_order garbage capacity e o).1
  unfolding process_order
  process_order-IsEngine e o valid inv =
      let (book, books) = get_or_create_book garbage capacity o.symbol e.order_books in
      let r = route o.type e.has_callback o book e.next_trade_id e.notified in
      let done = route-IsResult o valid e.has_callback book e.next_trade_id e.notified o.type in
      let o' = update_order_status r.crossing.order in
      let (own, quantity, filled) = update_order_status_lem r.crossing.order in
      elim (Bool-cases (o.quantity == 0)) [
        | inl zero_quantity ↦ rw zero_quantity inv
        | inr some_quantity ↦ rw some_quantity (record {
          active = λ id p.
              settle-IsOpen o' (insert o.id o e.active_orders) id p
                (λ j q ne h.
                  inv.active j q
                    (ground (arith, lookup-insert o.id j o e.active_orders, own, done.own_id)))
                (ground (arith, quantity, done.quantity, valid.narrow));
        })
      ]

  cancel_order-IsEngine :
      (e : Engine) (id : ℕ) → IsEngine e → IsEngine (cancel_order garbage capacity e id).1
  unfolding cancel_order
  cancel_order-IsEngine e id inv = elim (Option-cases (lookup id e.active_orders)) [
    | inl miss ↦ rw (miss, cancel_order) inv
    | inr (o, found) ↦
        rw (found, cancel_order)
          (record {
            active = λ j p h. inv.active j p (ground (arith, lookup-erase id j e.active_orders));
          })
  ]

  cancel_all-IsEngine :
      (ids : List ℕ) (e : Engine) → IsEngine e → IsEngine (cancel_all garbage capacity ids e)
  unfolding cancel_all
  cancel_all-IsEngine [] e inv = inv
  cancel_all-IsEngine (id ∷ ids) e inv =
      cancel_all-IsEngine ids (cancel_order garbage capacity e id).1
        (cancel_order-IsEngine e id inv)

-- The calls that change an engine.
pub data Call : Type 0 where
  processes : Order → Call
  cancels : ℕ → Call
  replaces : ℕ → Order → Call
  adds_symbol removes_symbol : ℕ → Call

abbrev pub IsCall : Call → Type 0
IsCall (processes o) = IsOrder o
IsCall (replaces old_id o) = IsOrder o
IsCall _ = Unit {0}

module _ (garbage : ℕ → UltraOrder) (capacity : ℕ) where
  unfoldable pub step : Call → Engine → Engine
  step (processes o) e = (process_order garbage capacity e o).1
  step (cancels id) e = (cancel_order garbage capacity e id).1
  step (replaces old_id o) e = (replace_order garbage capacity e old_id o).1
  step (adds_symbol s) e = add_symbol garbage capacity e s
  step (removes_symbol s) e = remove_symbol garbage capacity e s

  unfoldable pub run : List Call → Engine → Engine
  run [] e = e
  run (c ∷ cs) e = run cs (step c e)

  replace_order-IsEngine :
      (e : Engine) (old_id : ℕ) (o : Order)
      → IsOrder o
      → IsEngine e
      → IsEngine (replace_order garbage capacity e old_id o).1
  unfolding replace_order
  replace_order-IsEngine e old_id o valid inv =
      let inv₁ = cancel_order-IsEngine garbage capacity e old_id inv in
      let inv₂ = process_order-IsEngine garbage capacity _ o valid inv₁ in
      elim (Bool-cases (cancel_order garbage capacity e old_id).0) [
        | inl known ↦ rw known inv₂
        | inr unknown ↦ rw unknown inv₁
      ]

  step-IsEngine : (c : Call) (e : Engine) → IsCall c → IsEngine e → IsEngine (step c e)
  unfolding step add_symbol remove_symbol
  step-IsEngine (processes o) e valid inv = process_order-IsEngine garbage capacity e o valid inv
  step-IsEngine (cancels id) e valid inv = cancel_order-IsEngine garbage capacity e id inv
  step-IsEngine (replaces old_id o) e valid inv = replace_order-IsEngine e old_id o valid inv
  step-IsEngine (adds_symbol s) e valid inv = elim (Option-cases (lookup s e.order_books)) [
    | inl new ↦ rw (new, add_symbol) (record { active = inv.active })
    | inr (b, known) ↦ rw (known, add_symbol) inv
  ]
  step-IsEngine (removes_symbol s) e valid inv = record {
    active = (cancel_all-IsEngine garbage capacity (orders_of s e.active_orders) e inv).active;
  }

  run-IsEngine : (cs : List Call) (e : Engine) → All IsCall cs → IsEngine e → IsEngine (run cs e)
  unfolding run
  run-IsEngine [] e valid inv = inv
  run-IsEngine (c ∷ cs) e valid inv =
      run-IsEngine cs (step c e) valid.1 (step-IsEngine c e valid.0 inv)

  -- After any sequence of calls, with orders of 32 bits that are not overfilled, an order that `get_order` returns has the identifier that was asked
  -- for, and is not filled in full.
  pub get_order-run :
      (has_callback : Bool) (cs : List Call) (id : ℕ) (o : Order)
      → All IsCall cs
      → get_order (run cs (init has_callback)) id ≡ some o
      → (o.id ≡ id) × (o.filled_quantity < o.quantity)
  unfolding get_order init lookup
  get_order-run has_callback cs id o valid e =
      let start : IsEngine (init has_callback) = record {
        active = λ j p h. absurd (ground arith);
      } in
      let open_order = (run-IsEngine cs (init has_callback) valid start).active id o e in
      (open_order.own_id, open_order.some_left)
