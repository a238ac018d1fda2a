-- ===== src/Itch/Decoder.antt =====
-- `itch::Decoder` of src/itch/decoder.cpp.
pub mod Roundtrip
use nasdaq_order_book.Base.{
  ℕ, zero, suc, ◌+◌, Bool, true, false, ◌||◌, Option, none, some, List, [], ◌∷◌, ltb, ◌==◌,
  if◌then◌else◌, length,
}
use nasdaq_order_book.Core.Event.{ItchEvent, add, exec, cancel, delete, replace}
use nasdaq_order_book.Core.Symbols.{SymbolTable, get_or_intern}
use nasdaq_order_book.Itch.Bytes.{ntohl, bswap64}
use nasdaq_order_book.Itch.Messages.{
  common_header_size, itch_message_size, add_order, order_executed, order_cancel, order_delete,
  order_replace,
}

pub record DecodeResult : Type 0 where
  pub event : Option ItchEvent
  pub message_size : ℕ

-- `*ptr`; the size has been tested.
unfoldable pub type_of : List ℕ → ℕ
type_of [] = 0
type_of (c ∷ _) = c

-- The cases A and F
unfoldable pub decode_add : SymbolTable → List ℕ → ItchEvent × SymbolTable
decode_add symtab ptr =
    let msg = add_order ptr in
    let (sym_id, symtab') = get_or_intern symtab msg.stock_symbol in
    (
      add (bswap64 msg.order_reference_number) msg.buy_sell_indicator (ntohl msg.shares)
          (ntohl msg.price) sym_id,
      symtab',
    )

-- The cases E and C
unfoldable pub decode_exec : List ℕ → ItchEvent
decode_exec ptr =
    let msg = order_executed ptr in
    exec (bswap64 msg.order_reference_number) (ntohl msg.executed_shares)

unfoldable pub decode_cancel : List ℕ → ItchEvent
decode_cancel ptr =
    let msg = order_cancel ptr in
    cancel (bswap64 msg.order_reference_number) (ntohl msg.canceled_shares)

unfoldable pub decode_delete : List ℕ → ItchEvent
decode_delete ptr = delete (bswap64 (order_delete ptr).order_reference_number)

unfoldable pub decode_replace : List ℕ → ItchEvent
decode_replace ptr =
    let msg = order_replace ptr in
    replace (bswap64 msg.original_order_reference_number) (bswap64 msg.new_order_reference_number)
      (ntohl msg.shares) (ntohl msg.price) 0

-- The switch on the type
unfoldable pub decode_event : SymbolTable → List ℕ → Option ItchEvent × SymbolTable
decode_event symtab ptr =
    let type = type_of ptr in
    let (e, symtab') = decode_add symtab ptr in
    if type == b'A' || type == b'F'
    then (some e, symtab')
    else if type == b'E' || type == b'C'
    then (some (decode_exec ptr), symtab)
    else if type == b'X'
    then (some (decode_cancel ptr), symtab)
    else if type == b'D'
    then (some (decode_delete ptr), symtab)
    else if type == b'U'
    then (some (decode_replace ptr), symtab)
    else (none, symtab)

-- The buffer is the bytes from `ptr` on, and `size` its length.
unfoldable pub decode_one : SymbolTable → List ℕ → DecodeResult × SymbolTable
decode_one symtab ptr =
    let msize = itch_message_size (type_of ptr) in
    let (event, symtab') = decode_event symtab ptr in
    if ltb (length ptr) common_header_size || (msize == 0 || ltb (length ptr) msize)
    then (record { event = none; message_size = 0 }, symtab)
    else (record { event = event; message_size = msize }, symtab')
