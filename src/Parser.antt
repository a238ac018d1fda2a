-- ===== src/Parser.antt =====
-- src/itch_parser.cpp: `parse_packet` and the handlers, which apply the messages of a packet to the
-- books of the global `OrderBookManager`. The structs of include/itch_parser.hpp have the layouts of
-- Itch/Messages.antt.
pub mod Packets
mod Tests
use nasdaq_order_book.Base.{
  ℕ, zero, suc, ◌+◌, ◌*◌, ◌-◌, Bool, true, false, ◌||◌, Option, none, some, List, [], ◌∷◌, ltb,
  ◌==◌, if◌then◌else◌, drop,
}
use nasdaq_order_book.Base.Assoc.{lookup, insert, erase}
use nasdaq_order_book.Core.Symbols.{trim}
use nasdaq_order_book.Itch.Bytes.{ntohl, bswap64}
use nasdaq_order_book.Itch.Messages.{
  slice, add_order, order_executed, order_cancel, order_delete, order_replace, itch_message_size,
}
use nasdaq_order_book.Itch.Decoder.{type_of}
use nasdaq_order_book.Books.Memory.{OrderPool}
use nasdaq_order_book.Books.Plain
use nasdaq_order_book.Books.Plain.{State, execute_order, replace_order}
use nasdaq_order_book.Books.Manager.{OrderBookManager, get_or_create_order_book}

-- The globals: the manager, the pool of its books and `g_order_to_symbol_map`.
pub record Globals : Type 0 where
  pub manager : OrderBookManager
  pub pool : OrderPool
  pub order_to_symbol : List (ℕ × ℕ)

-- A text of bytes as one number, the key of the maps of symbols.
unfoldable pub name : List ℕ → ℕ
name [] = 0
name (c ∷ s) = suc c + 257 * name s

-- `extractSymbol` without the spaces at the end
unfoldable pub extract_symbol : List ℕ → ℕ
extract_symbol field = name (trim field)

-- A call of a method of the book of `symbol`, which is made where there is none.
unfoldable pub with_book : Globals → ℕ → (State → State) → Globals
unfolding get_or_create_order_book
with_book g symbol method =
    let (b, m) = get_or_create_order_book g.manager symbol in
    let s = method (record { book = b; pool = g.pool }) in
    record g { manager = record m { books = insert symbol s.book m.books }; pool = s.pool }

-- `handleAddOrder` and `handleAddOrderWithMPID` past the reading of the fields.
unfoldable pub add_to_book : Globals → ℕ → ℕ → ℕ → ℕ → ℕ → Globals
add_to_book g id side quantity symbol price =
    let g₁ = with_book g symbol λ s. Plain.add_order s id side quantity price in
    record g₁ { order_to_symbol = insert id symbol g₁.order_to_symbol }

-- The part that the handlers of executions and cancels share; an order that is not known is ignored.
unfoldable pub execute_known : Globals → ℕ → ℕ → Globals
execute_known g id quantity = elim (lookup id g.order_to_symbol) [
  | none ↦ g
  | some symbol ↦ with_book g symbol λ s. execute_order s id quantity
]

unfoldable pub delete_known : Globals → ℕ → Globals
delete_known g id = elim (lookup id g.order_to_symbol) [
  | none ↦ g
  | some symbol ↦
      let g₁ = with_book g symbol λ s. Plain.delete_order s id in
      record g₁ { order_to_symbol = erase id g₁.order_to_symbol }
]

unfoldable pub replace_known : Globals → ℕ → ℕ → ℕ → ℕ → Globals
replace_known g old_id new_id quantity price = elim (lookup old_id g.order_to_symbol) [
  | none ↦ g
  | some symbol ↦
      let g₁ = with_book g symbol λ s. replace_order s old_id new_id quantity price in
      record g₁ { order_to_symbol = insert new_id symbol (erase old_id g₁.order_to_symbol) }
]

-- The handlers, which read the fields at the message.
unfoldable pub handle_add_order : Globals → List ℕ → Globals
handle_add_order g ptr =
    let msg = add_order ptr in
    add_to_book g (bswap64 msg.order_reference_number) msg.buy_sell_indicator (ntohl msg.shares)
      (extract_symbol msg.stock_symbol) (ntohl msg.price)

unfoldable pub handle_order_executed : Globals → List ℕ → Globals
handle_order_executed g ptr =
    let msg = order_executed ptr in
    execute_known g (bswap64 msg.order_reference_number) (ntohl msg.executed_shares)

unfoldable pub handle_order_cancel : Globals → List ℕ → Globals
handle_order_cancel g ptr =
    let msg = order_cancel ptr in
    execute_known g (bswap64 msg.order_reference_number) (ntohl msg.canceled_shares)

unfoldable pub handle_order_delete : Globals → List ℕ → Globals
handle_order_delete g ptr = delete_known g (bswap64 (order_delete ptr).order_reference_number)

unfoldable pub handle_order_replace : Globals → List ℕ → Globals
handle_order_replace g ptr =
    let msg = order_replace ptr in
    replace_known g (bswap64 msg.original_order_reference_number)
      (bswap64 msg.new_order_reference_number) (ntohl msg.shares) (ntohl msg.price)

-- The case R: the book of the symbol is made.
unfoldable pub handle_stock_directory : Globals → List ℕ → Globals
handle_stock_directory g ptr = with_book g (extract_symbol (slice 11 8 ptr)) λ s. s

-- The switch on the type; a type that is not listed leaves the globals alone.
unfoldable pub handle : Globals → List ℕ → Globals
handle g ptr =
    let type = type_of ptr in
    if type == b'R'
    then handle_stock_directory g ptr
    else if type == b'A' || type == b'F'
    then handle_add_order g ptr
    else if type == b'E' || type == b'C'
    then handle_order_executed g ptr
    else if type == b'X'
    then handle_order_cancel g ptr
    else if type == b'D'
    then handle_order_delete g ptr
    else if type == b'U'
    then handle_order_replace g ptr
    else g

-- The loop with `size` bytes of the packet left at `ptr`. The handler runs before the length of the
-- message is compared with `size`, so it reads what stands behind the packet when the message is cut
-- off. A type that is not listed has no size and ends the loop.
unfoldable pub packet_loop : ℕ → Globals → List ℕ → ℕ → Globals
packet_loop zero g ptr size = g
packet_loop (suc n) g ptr size =
    let message_length = itch_message_size (type_of ptr) in
    let g₁ = handle g ptr in
    let rest = packet_loop n g₁ (drop message_length ptr) (size - message_length) in
    if size == 0 then g else if message_length == 0 || ltb size message_length then g₁ else rest

-- `parse_packet` at the memory from `buffer` on. A message takes at least one byte, so `size` rounds
-- are enough.
unfoldable pub parse_packet : Globals → List ℕ → ℕ → Globals
unfolding packet_loop
parse_packet g buffer size = packet_loop size g buffer size
