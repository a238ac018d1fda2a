-- ===== src/Parser/Tests.antt =====
-- Packets for `parse_packet`.
use nasdaq_order_book.Base.{◌≡◌, refl, none, some, [], ◌∷◌, arith}
use nasdaq_order_book.Base.Assoc.{lookup}
use nasdaq_order_book.Core.Symbols.{push_trimmed, trim}
use nasdaq_order_book.Itch.Bytes.{ntohl, bswap64, load, put64}
use nasdaq_order_book.Itch.Messages.{slice, itch_message_size, order_delete}
use nasdaq_order_book.Itch.Decoder.{type_of}
use nasdaq_order_book.Itch.Decoder.Roundtrip.{
  Stamp, Symbol, put_head, Directory, lists, adds, executes, deletes, replaces, starts,
}
use nasdaq_order_book.Books.Memory.{Order}
use nasdaq_order_book.Books.Plain
use nasdaq_order_book.Books.Manager.{no_books, get_or_create_order_book, or_new}
use nasdaq_order_book.Parser.{
  Globals, name, extract_symbol, with_book, add_to_book, delete_known, handle_order_delete, handle,
  packet_loop, parse_packet,
}
use nasdaq_order_book.Parser.Packets.{
  Packet, put_packet, packet_size, effects, parse_packet-put_packet,
}

abbrev stamp : Stamp
stamp = record { b₁ = 0; b₂ = 1; b₃ = 0; b₄ = 2; b₅ = 0; b₆ = 0; b₇ = 9; b₈ = 8; b₉ = 7; b₁₀ = 6 }

abbrev aapl : Symbol
aapl = record {
  s₁ = b'A';
  s₂ = b'A';
  s₃ = b'P';
  s₄ = b'L';
  s₅ = b' ';
  s₆ = b' ';
  s₇ = b' ';
  s₈ = b' ';
}

abbrev directory : Directory
directory = record {
  market_category = b'Q';
  financial_status = b'N';
  round_lot_size = 100;
  round_lots_only = b'N';
  classification = b'C';
  sub_type₁ = b'Z';
  sub_type₂ = b' ';
  authenticity = b'P';
  short_sale_threshold = b'N';
  ipo_flag = b'N';
  luld_tier = b'1';
  etp_flag = b'N';
  etp_leverage = 0;
  inverse = b'N';
}

abbrev blank : Order
blank = record { id = 0; side = 0; quantity = 0; price = 0; next = none; prev = none }

abbrev start : Globals
start = record {
  manager = no_books;
  pool = record { storage = λ a. blank; index = 0 };
  order_to_symbol = [];
}

abbrev packet : Packet
packet =
    (stamp, starts b'O')
    ∷ (stamp, lists aapl directory)
    ∷ (stamp, adds 7 b'B' 100 aapl 50000)
    ∷ (stamp, executes 7 40 1)
    ∷ (stamp, replaces 7 9 10 50100)
    ∷ (stamp, deletes 9)
    ∷ []

parse_packet-put_packet_example :
    parse_packet start (put_packet packet (b'D' ∷ [])) (packet_size packet) ≡ effects packet start
parse_packet-put_packet_example = parse_packet-put_packet packet start (b'D' ∷ []) (
  tt,
  (
    tt,
    (
      (omega arith, omega arith, omega arith),
      (
        (omega arith, omega arith),
        ((omega arith, omega arith, omega arith, omega arith), (omega arith, tt)),
      ),
    ),
  ),
)

abbrev one_order : Globals
one_order = effects ((stamp, adds 7 b'B' 100 aapl 50000) ∷ []) start

-- A packet of one byte, behind which the rest of a deletion stands in memory, deletes the order.
cut_off :
    (lookup 7 one_order.order_to_symbol ≡ some (name (b'A' ∷ b'A' ∷ b'P' ∷ b'L' ∷ [])))
    × (lookup 7 (parse_packet one_order (put_head b'D' stamp (put64 7 [])) 1).order_to_symbol
        ≡ none)
unfolding lookup Plain.steps push_trimmed trim ntohl bswap64 load slice itch_message_size
    order_delete type_of get_or_create_order_book or_new name extract_symbol with_book add_to_book
    delete_known handle_order_delete handle packet_loop parse_packet
cut_off = (refl, refl)
