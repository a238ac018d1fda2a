-- ===== src/Matching/Engine/Outcomes.antt =====
-- What the calls of the engine return and leave behind.
use nasdaq_order_book.Base.{
  ℕ, ◌+◌, ◌≤◌, ◌≡◌, ◌≢◌, ◌↔◌, inl, inr, refl, Bool, true, false, none, some, List, arith, ◌==◌,
  if◌then◌else◌, Bool-cases, All,
}
use nasdaq_order_book.Base.Assoc.{lookup, lookup-insert, lookup-erase}
use nasdaq_order_book.Ultra.Order.{UltraOrder}
use nasdaq_order_book.Ultra.Table.Valid.{IsLive}
use nasdaq_order_book.Ultra.Book.{UltraBook, ultra_delete_order}
use nasdaq_order_book.Ultra.Book.Lifecycle.{view, IsOrders, delete-refines}
use nasdaq_order_book.Matching.Types.{Order, OrderType, market, limit, rejected, Fill}
use nasdaq_order_book.Matching.Cross.{cross_status, cross_result}
use nasdaq_order_book.Matching.Cross.Fills.{IsOrder, IsFillOf, volume}
use nasdaq_order_book.Matching.Engine.{
  Engine, process_market_order, rest_order, kill_order, process_limit_order, route,
  get_or_create_book, process_order, cancel_order, replace_order, get_order,
}
use nasdaq_order_book.Matching.Engine.Active.{route-IsResult}

route_status :
    (type : OrderType) (callback : Bool) (o : Order) (book : UltraBook) (next : ℕ)
    (notified : List Fill)
    → (route type callback o book next notified).result.final_status ≢ rejected
unfolding route process_limit_order process_market_order rest_order kill_order cross_result
    cross_status
route_status market callback o book next notified = ground arith
route_status limit callback o book next notified = ground arith

module _ (garbage : ℕ → UltraOrder) (capacity : ℕ) (e : Engine) where
  -- An order of 32 bits that is not overfilled is rejected exactly if its quantity is zero. In any case the fills add up to the total
  -- that is reported, they are fills of the order, and they do not exceed what it had open.
  pub process_order_lem :
      (o : Order)
      → IsOrder o
      → let r = (process_order garbage capacity e o).0 in
        ((r.final_status ≡ rejected) ↔ (o.quantity ≡ 0))
        × (volume r.fills ≡ r.total_filled)
        × (o.filled_quantity + r.total_filled ≤ o.quantity)
        × All (IsFillOf o) r.fills
  unfolding process_order
  process_order_lem o valid =
      let (book, books) = get_or_create_book garbage capacity o.symbol e.order_books in
      let done = route-IsResult o valid e.has_callback book e.next_trade_id e.notified o.type in
      let status = route_status o.type e.has_callback o book e.next_trade_id e.notified in
      elim (Bool-cases (o.quantity == 0)) [
        | inl none_left ↦ rw none_left (ground arith, refl, ground (arith, valid.open_part), tt)
        | inr some_left ↦
            rw some_left
              (ground arith, done.summed, ground (arith, done.bounded, done.conserved), done.fills)
      ]

  -- Replacing by an order of quantity zero reports failure, but has cancelled the old order.
  pub replace_order_zero :
      (old_id : ℕ) (old o : Order)
      → get_order e old_id ≡ some old
      → o.quantity ≡ 0
      → ((replace_order garbage capacity e old_id o).0 ≡ false)
        × (get_order (replace_order garbage capacity e old_id o).1 old_id ≡ none)
  unfolding get_order replace_order process_order cancel_order
  replace_order_zero old_id old o found zero_quantity =
      ground (arith, lookup-erase old_id old_id e.active_orders)

  -- Cancelling an active order of a live identifier, whose symbol has a valid book, succeeds; the order is gone from the engine and from its book, and no
  -- other order of that book is touched.
  pub cancel_order_lem :
      (id : ℕ) (o : Order) (book : UltraBook)
      → get_order e id ≡ some o
      → lookup o.symbol e.order_books ≡ some book
      → IsOrders book
      → IsLive id
      → let (done, e') = cancel_order garbage capacity e id in
        (done ≡ true)
        × (get_order e' id ≡ none)
        × (lookup o.symbol e'.order_books ≡ some (ultra_delete_order book id))
        × ((j : ℕ)
            → IsLive j
            → view (ultra_delete_order book id) j ≡ (if j == id then none else view book j))
  unfolding get_order cancel_order get_or_create_book
  cancel_order_lem id o book found known valid live = (
    ground arith,
    ground (arith, lookup-erase id id e.active_orders),
    ground (arith, lookup-insert o.symbol o.symbol (ultra_delete_order book id) e.order_books),
    λ j lj. delete-refines book valid id live j lj,
  )
