-- ===== src/Matching/Router/Outcomes.antt =====
-- What the router lets through, and what it makes of it.
use native.Mathlib.Nat.{div-add-mod, mod-lt, mul-mod_left, mod-eq_of_lt}
use nasdaq_order_book.Base.{
  ℕ, suc, ◌+◌, ◌*◌, ◌/◌, ◌%◌, ◌≤◌, ◌<◌, ◌≡◌, ◌≢◌, ◌⊎◌, ◌↔◌, inl, inr, refl, sym, ap, ◌∙◌, true,
  false, some, List, [], ◌∷◌, arith, ◌==◌, length, add64, Bool-cases,
}
use nasdaq_order_book.Ultra.Order.{UltraOrder}
use nasdaq_order_book.Matching.Types.{Order, OrderType, market, limit}
use nasdaq_order_book.Matching.Engine.{process_order, cancel_order}
use nasdaq_order_book.Matching.Manager.{
  SymbolInfo, SymbolManager, is_valid_symbol, can_trade_symbol, validate_price, validate_quantity,
  round_to_tick, round_to_lot, get_symbol_info, accepts_orders,
}
use nasdaq_order_book.Matching.Router.{
  success, SymbolRouter, is_limit, check, count_rejected, count_routed, round_order, deliver,
  route_order, route_orders, route_replace, is_success,
}

-- What a symbol asks of an order that is routed.
pub record Accepts (info : SymbolInfo) (o : Order) : Type 0 where
  pub open_for_orders : accepts_orders info.state ≡ true
  pub priced :
      o.type ≡ limit
      → (info.min_price ≤ o.price) × (o.price ≤ info.max_price) × (o.price % info.tick_size ≡ 0)
  pub sized : (info.min_quantity ≤ o.quantity) × (o.quantity ≤ info.max_quantity)

type_cases : (t : OrderType) → (t ≡ limit) ⊎ (is_limit t ≡ false)
type_cases limit = inl refl
type_cases market = inr refl

multiple : (p t : ℕ) → p % t ≡ 0 → p / t * t ≡ p
multiple p t h = ground (arith, div-add-mod p t)

-- What rounding to a lot loses is less than a lot.
round_down : (q t : ℕ) → 0 < t → (q / t * t ≤ q) × (q < q / t * t + t) × (q / t * t % t ≡ 0)
round_down q t pos = (
  ground (arith, div-add-mod q t),
  ground (arith, div-add-mod q t, mod-lt q pos),
  mul-mod_left (q / t) t,
)

module _ (m : SymbolManager) (o : Order) (info : SymbolInfo)
    (there : get_symbol_info m o.symbol ≡ some info) where
  check_success : check m o ≡ success → Accepts info o
  unfolding check is_valid_symbol can_trade_symbol validate_price validate_quantity get_symbol_info
  check_success h = record {
    open_for_orders = ground arith;
    priced = λ l. ground arith;
    sized = ground arith;
  }

  -- Rounding keeps a price that was accepted.
  round_order-price : Accepts info o → (round_order m o).price ≡ o.price
  unfolding round_order round_to_tick get_symbol_info
  round_order-price fine = elim (type_cases o.type) [
    | inl l ↦ ground (arith, multiple o.price info.tick_size (fine.priced l).2)
    | inr not_limit ↦ ground arith
  ]

  round_order-quantity : (round_order m o).quantity ≡ o.quantity / info.lot_size * info.lot_size
  unfolding round_order round_to_lot
  round_order-quantity = ground arith

  check-Accepts : Accepts info o → check m o ≡ success
  unfolding check is_valid_symbol can_trade_symbol validate_price validate_quantity get_symbol_info
  check-Accepts h = elim (type_cases o.type) [
    | inl l ↦ ground (arith, h.open_for_orders, h.priced l, h.sized)
    | inr not_limit ↦ ground (arith, h.open_for_orders, h.sized, not_limit)
  ]

module _ (garbage : ℕ → UltraOrder) (capacity : ℕ) (r : SymbolRouter) (o : Order)
    (info : SymbolInfo) (there : get_symbol_info r.symbol_manager o.symbol ≡ some info) where
  -- An order for a known symbol succeeds exactly if the symbol accepts orders, takes the quantity
  -- and, for a limit order, the price.
  pub route_order-Accepts : ((route_order garbage capacity r o).0.result ≡ success) ↔ Accepts info o
  unfolding route_order deliver
  route_order-Accepts = (
    λ ok. check_success r.symbol_manager o info there (ground arith),
    λ fine. ground (arith, check-Accepts r.symbol_manager o info there fine),
  )

  -- Of an order that its symbol accepts, if the symbol has a lot size: the engine processes the order
  -- that the result shows, which is the order that was asked for but for its quantity, rounded down to
  -- a lot.
  pub route_order_rounds :
      0 < info.lot_size
      → Accepts info o
      → let o' = (route_order garbage capacity r o).0.order in
        ((route_order garbage capacity r o).1.matching_engine
          ≡ (process_order garbage capacity r.matching_engine o').1)
        × (o' ≡ record o { quantity = o'.quantity })
        × (o'.quantity ≤ o.quantity)
        × (o.quantity < o'.quantity + info.lot_size)
        × (o'.quantity % info.lot_size ≡ 0)
  unfolding route_order deliver round_order
  route_order_rounds pos fine =
      let (least, most, whole) = round_down o.quantity info.lot_size pos in
      let checked = check-Accepts r.symbol_manager o info there fine in
      let price = round_order-price r.symbol_manager o info there fine in
      let quantity = round_order-quantity r.symbol_manager o info there in
      rw checked (
        refl,
        ap (λ p. record (round_order r.symbol_manager o) { price = p }) price,
        rw quantity least,
        rw quantity most,
        rw quantity whole,
      )

less_than_lot : (q t : ℕ) → q < t → q / t * t ≡ 0
less_than_lot q t h =
    let (least, most, whole) = round_down q t (omega arith) in
    ground (arith, mod-eq_of_lt {n = q / t * t} {m = t} (omega (arith, least)))

deliver_zero :
    (garbage : ℕ → UltraOrder) (capacity : ℕ) (r : SymbolRouter) (o : Order)
    → (round_order r.symbol_manager o).quantity ≡ 0
    → (deliver garbage capacity r o).1.matching_engine ≡ r.matching_engine
unfolding deliver process_order
deliver_zero garbage capacity r o h =
    let none_left : ((round_order r.symbol_manager o).quantity == 0) ≡ true = ground arith in
    rw none_left refl

module _ (garbage : ℕ → UltraOrder) (capacity : ℕ) (r : SymbolRouter) where
  delivered : (o : Order) → (deliver garbage capacity r o).0.result ≡ success
  unfolding deliver
  delivered o = refl

  -- A replacement of less than a lot that the symbol accepts is reported as a success, but the
  -- engine has only cancelled the old order.
  pub route_replace_small :
      (old_id : ℕ) (o : Order) (info : SymbolInfo)
      → get_symbol_info r.symbol_manager o.symbol ≡ some info
      → Accepts info o
      → o.quantity < info.lot_size
      → let (routed, r') = route_replace garbage capacity r old_id o in
        (routed.result ≡ success)
        × (r'.matching_engine ≡ (cancel_order garbage capacity r.matching_engine old_id).1)
  unfolding route_replace route_order
  route_replace_small old_id o info there fine small =
      let checked = check-Accepts r.symbol_manager o info there fine in
      let rounded =
        round_order-quantity r.symbol_manager o info there
        ∙ less_than_lot o.quantity info.lot_size small in
      rw checked (
        delivered o,
        rw (delivered o) (
            ap (λ e. (cancel_order garbage capacity e old_id).1)
              (deliver_zero garbage capacity r o rounded)),
      )

  -- An order that is not a success leaves the manager and the engine alone.
  pub route_order_failed :
      (o : Order)
      → (route_order garbage capacity r o).0.result ≢ success
      → let r' = (route_order garbage capacity r o).1 in
        (r'.symbol_manager ≡ r.symbol_manager) × (r'.matching_engine ≡ r.matching_engine)
  unfolding route_order
  route_order_failed o failed = elim (Bool-cases (is_success (check r.symbol_manager o))) [
    | inr refused ↦ rw refused (refl, refl)
    | inl ok ↦ absurd (failed (rw ok (delivered o)))
  ]

-- Every order is counted once, as routed or as rejected.
counted_once :
    (garbage : ℕ → UltraOrder) (capacity : ℕ) (r : SymbolRouter) (o : Order)
    → let s = r.stats in
      let s' = (route_order garbage capacity r o).1.stats in
      (s'.total_orders ≡ add64 s.total_orders 1)
      × (add64 s'.routed_orders s'.rejected_orders
          ≡ add64 (add64 s.routed_orders s.rejected_orders) 1)
unfolding route_order deliver count_routed count_rejected
counted_once garbage capacity r o = elim (Bool-cases (is_success (check r.symbol_manager o))) [
  | inr refused ↦ rw refused (refl, omega arith)
  | inl ok ↦ rw ok (refl, omega arith)
]

-- After any list of orders, if routed and rejected orders summed up to all orders before, modulo
-- 2 ^ 64, they do so after it; and there is one answer for each order.
pub route_orders_counts :
    (garbage : ℕ → UltraOrder) (capacity : ℕ) (os : List Order) (r : SymbolRouter)
    → r.stats.total_orders ≡ add64 r.stats.routed_orders r.stats.rejected_orders
    → let (results, r') = route_orders garbage capacity r os in
      (r'.stats.total_orders ≡ add64 r'.stats.routed_orders r'.stats.rejected_orders)
      × (length results ≡ length os)
unfolding route_orders
route_orders_counts garbage capacity [] r h = (h, refl)
route_orders_counts garbage capacity (o ∷ os) r h =
    let (total, parts) = counted_once garbage capacity r o in
    let (sums, lengths) =
      route_orders_counts garbage capacity os (route_order garbage capacity r o).1
        (total ∙ ap (λ n. add64 n 1) h ∙ sym parts) in
    (sums, ap suc lengths)
