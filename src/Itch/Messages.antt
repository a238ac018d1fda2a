-- ===== src/Itch/Messages.antt =====
-- include/itch/messages.hpp: the packed message structs, with their integers as `memcpy` leaves them
-- on a little-endian host, and the sizes of the messages. Fields that the decoder does not read
-- count in the sizes and offsets only.
use nasdaq_order_book.Base.{ℕ, ◌+◌, List, ◌==◌, if◌then◌else◌, take, drop}
use nasdaq_order_book.Itch.Bytes.{load}

pub record AddOrderMessage : Type 0 where
  pub order_reference_number : ℕ
  pub buy_sell_indicator : ℕ
  pub shares : ℕ
  pub stock_symbol : List ℕ
  pub price : ℕ

pub record OrderExecutedMessage : Type 0 where
  pub order_reference_number : ℕ
  pub executed_shares : ℕ

pub record OrderCancelMessage : Type 0 where
  pub order_reference_number : ℕ
  pub canceled_shares : ℕ

pub record OrderDeleteMessage : Type 0 where
  pub order_reference_number : ℕ

pub record OrderReplaceMessage : Type 0 where
  pub original_order_reference_number : ℕ
  pub new_order_reference_number : ℕ
  pub shares : ℕ
  pub price : ℕ

-- The `n` bytes from `offset` on
unfoldable pub slice : ℕ → ℕ → List ℕ → List ℕ
slice offset n ptr = take n (drop offset ptr)

-- `sizeof` of the part that all messages begin with: type, stock locate, tracking number and, but
-- in `CommonHeader`, a time stamp of six bytes.
abbrev pub common_header_size : ℕ
common_header_size = 1 + 2 + 2

abbrev pub stamped_size : ℕ
stamped_size = common_header_size + 6

abbrev pub add_order_size : ℕ
add_order_size = stamped_size + 8 + 1 + 4 + 8 + 4

abbrev pub order_executed_size : ℕ
order_executed_size = stamped_size + 8 + 4 + 8

-- Nine bytes of flags stand around the two integers of a stock directory message, which has two
-- bytes of a sub type besides.
abbrev pub stock_directory_size : ℕ
stock_directory_size = stamped_size + 8 + 1 + 1 + 4 + 1 + 1 + 2 + 1 + 1 + 1 + 1 + 1 + 4 + 1

unfoldable pub itch_message_size : ℕ → ℕ
itch_message_size type =
    if type == b'S'
    then stamped_size + 1
    else if type == b'R'
    then stock_directory_size
    else if type == b'A'
    then add_order_size
    else if type == b'F'
    then add_order_size + 4
    else if type == b'E'
    then order_executed_size
    else if type == b'C'
    then order_executed_size + 1 + 4
    else if type == b'X'
    then stamped_size + 8 + 4
    else if type == b'D'
    then stamped_size + 8
    else if type == b'U'
    then stamped_size + 8 + 8 + 4 + 4
    else 0

-- The structs as `memcpy` fills them; those of types F and C begin as those of A and E do.
unfoldable pub add_order : List ℕ → AddOrderMessage
add_order ptr = record {
  order_reference_number = load (slice 11 8 ptr);
  buy_sell_indicator = load (slice 19 1 ptr);
  shares = load (slice 20 4 ptr);
  stock_symbol = slice 24 8 ptr;
  price = load (slice 32 4 ptr);
}

unfoldable pub order_executed : List ℕ → OrderExecutedMessage
order_executed ptr = record {
  order_reference_number = load (slice 11 8 ptr);
  executed_shares = load (slice 19 4 ptr);
}

unfoldable pub order_cancel : List ℕ → OrderCancelMessage
order_cancel ptr = record {
  order_reference_number = load (slice 11 8 ptr);
  canceled_shares = load (slice 19 4 ptr);
}

unfoldable pub order_delete : List ℕ → OrderDeleteMessage
order_delete ptr = record { order_reference_number = load (slice 11 8 ptr) }

unfoldable pub order_replace : List ℕ → OrderReplaceMessage
order_replace ptr = record {
  original_order_reference_number = load (slice 11 8 ptr);
  new_order_reference_number = load (slice 19 8 ptr);
  shares = load (slice 27 4 ptr);
  price = load (slice 31 4 ptr);
}
