-- ===== src/Ultra/Book/Faults.antt =====
-- What the simplified operations of `UltraOrderBook` get wrong.
use nasdaq_order_book.Base.{ℕ, ◌≤◌, ◌<◌, ◌≡◌, ◌⊎◌, ◌↔◌, some, arith, ◌==◌, sub16}
use nasdaq_order_book.Ultra.Order.{get_side}
use nasdaq_order_book.Ultra.Table.{ultra_find}
use nasdaq_order_book.Ultra.Book.{
  UltraBook, ultra_min_price, ultra_max_price, ultra_price_to_index, levels, set_level, set_order,
  ultra_add_order, execute_at, ultra_execute_order, retire, forget, ultra_delete_order, reset_pool,
}

-- Two prices share a level exactly if they are equal or neither is inside the band above its lowest
-- price: every price outside the band is counted at the lowest one.
pub price_to_index_lem :
    (p q : ℕ)
    → (ultra_price_to_index p ≡ ultra_price_to_index q) ↔ (
        (p ≡ q)
        ⊎ (((p ≤ ultra_min_price) ⊎ (ultra_max_price < p))
            × ((q ≤ ultra_min_price) ⊎ (ultra_max_price < q))))
unfolding ultra_price_to_index
price_to_index_lem p q = ground arith

-- `reset_pool` leaves the hash table: an identifier that was in use stays a duplicate, and adding
-- it again changes nothing.
pub reset_pool_drops_adds :
    (b : UltraBook) (id a side q p : ℕ)
    → ultra_find b.order_hash id ≡ some a
    → ultra_add_order (reset_pool b) id side q p ≡ reset_pool b
unfolding ultra_add_order reset_pool
reset_pool_drops_adds b id a side q p found = rw (found, ultra_add_order)

-- An order that is executed in full and then deleted is taken off its level's count twice.
pub execute_delete_counts_twice :
    (b : UltraBook) (id a qty : ℕ)
    → ultra_find b.order_hash id ≡ some a
    → (b.order_pool.mem a).quantity ≤ qty
    → let o = b.order_pool.mem a in
      let is_buy = get_side o == b'B' in
      let i = ultra_price_to_index o.price in
      (levels (ultra_delete_order (ultra_execute_order b id qty) id) is_buy i).order_count
      ≡ sub16 (sub16 (levels b is_buy i).order_count 1) 1
unfolding ultra_delete_order ultra_execute_order execute_at retire forget levels set_level set_order
    get_side
execute_delete_counts_twice b id a qty found full = ground arith
