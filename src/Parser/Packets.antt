-- ===== src/Parser/Packets.antt =====
-- `parse_packet` on a packet of messages in the layout of ITCH 5.0.
use nasdaq_order_book.Base.{
  ℕ, zero, suc, ◌+◌, ◌-◌, ◌<◌, ◌≤◌, ◌≡◌, refl, false, List, [], ◌∷◌, arith, u32_mod, u64_mod, drop,
  ltb, ◌==◌,
}
use nasdaq_order_book.Itch.Bytes.{put32, put64, ntohl-put32, bswap64-put64}
use nasdaq_order_book.Itch.Messages.{
  slice, itch_message_size, add_order, order_executed, order_cancel, order_delete, order_replace,
}
use nasdaq_order_book.Itch.Decoder.{type_of}
use nasdaq_order_book.Itch.Decoder.Roundtrip.{
  Stamp, Symbol, put_symbol, put_head, Message, starts, lists, put_directory, adds, adds_for,
  executes, executes_at, cancels, deletes, replaces, put_message, IsMessage, size_of, load_one,
}
use nasdaq_order_book.Parser.{
  Globals, extract_symbol, with_book, handle_stock_directory, add_to_book, execute_known,
  delete_known, replace_known, handle, handle_add_order, handle_order_executed, handle_order_cancel,
  handle_order_delete, handle_order_replace, packet_loop, parse_packet,
}

-- What a message does to the books.
abbrev pub effect : Message → Globals → Globals
effect (starts code) g = g
effect (lists s d) g = with_book g (extract_symbol (put_symbol s [])) λ b. b
effect (adds id side q s p) g = add_to_book g id side q (extract_symbol (put_symbol s [])) p
effect (adds_for id side q s p mpid) g =
    add_to_book g id side q (extract_symbol (put_symbol s [])) p
effect (executes id q match_number) g = execute_known g id q
effect (executes_at id q match_number printable p) g = execute_known g id q
effect (cancels id q) g = execute_known g id q
effect (deletes id) g = delete_known g id
effect (replaces old_id new_id q p) g = replace_known g old_id new_id q p

module _ (g : Globals) (h : Stamp) where
  handle_add_order-put :
      (type id side q : ℕ) (s : Symbol) (p : ℕ) (rest : List ℕ)
      → (id < u64_mod) × (q < u32_mod) × (p < u32_mod)
      → handle_add_order g
          (put_head type h (put64 id (side ∷ put32 q (put_symbol s (put32 p rest)))))
        ≡ add_to_book g id side q (extract_symbol (put_symbol s [])) p
  unfolding handle_add_order add_order slice
  handle_add_order-put type id side q s p rest valid =
      cc (bswap64-put64 id valid.0, load_one side, ntohl-put32 q valid.1, ntohl-put32 p valid.2)

  handle_order_executed-put :
      (type id q : ℕ) (rest : List ℕ)
      → (id < u64_mod) × (q < u32_mod)
      → handle_order_executed g (put_head type h (put64 id (put32 q rest))) ≡ execute_known g id q
  unfolding handle_order_executed order_executed slice
  handle_order_executed-put type id q rest valid =
      cc (bswap64-put64 id valid.0, ntohl-put32 q valid.1)

  handle_order_cancel-put :
      (id q : ℕ) (rest : List ℕ)
      → (id < u64_mod) × (q < u32_mod)
      → handle_order_cancel g (put_head b'X' h (put64 id (put32 q rest))) ≡ execute_known g id q
  unfolding handle_order_cancel order_cancel slice
  handle_order_cancel-put id q rest valid = cc (bswap64-put64 id valid.0, ntohl-put32 q valid.1)

  handle_order_delete-put :
      (id : ℕ) (rest : List ℕ)
      → id < u64_mod
      → handle_order_delete g (put_head b'D' h (put64 id rest)) ≡ delete_known g id
  unfolding handle_order_delete order_delete slice
  handle_order_delete-put id rest valid = cc (bswap64-put64 id valid)

  handle_order_replace-put :
      (old_id new_id q p : ℕ) (rest : List ℕ)
      → (old_id < u64_mod) × (new_id < u64_mod) × (q < u32_mod) × (p < u32_mod)
      → handle_order_replace g
          (put_head b'U' h (put64 old_id (put64 new_id (put32 q (put32 p rest)))))
        ≡ replace_known g old_id new_id q p
  unfolding handle_order_replace order_replace slice
  handle_order_replace-put old_id new_id q p rest valid = cc (
    bswap64-put64 old_id valid.0,
    bswap64-put64 new_id valid.1,
    ntohl-put32 q valid.2,
    ntohl-put32 p valid.3,
  )

  handle_stock_directory-put :
      (s : Symbol) (rest : List ℕ)
      → handle_stock_directory g (put_head b'R' h (put_symbol s rest))
        ≡ with_book g (extract_symbol (put_symbol s [])) (λ b. b)
  unfolding handle_stock_directory slice
  handle_stock_directory-put s rest = refl

  handle-put_message :
      (m : Message) (rest : List ℕ) → IsMessage m → handle g (put_message h m rest) ≡ effect m g
  unfolding handle type_of
  handle-put_message (starts code) rest valid = refl
  handle-put_message (lists s d) rest valid = handle_stock_directory-put s (put_directory d rest)
  handle-put_message (adds id side q s p) rest valid =
      handle_add_order-put b'A' id side q s p rest valid
  handle-put_message (adds_for id side q s p mpid) rest valid =
      handle_add_order-put b'F' id side q s p (put32 mpid rest) valid
  handle-put_message (executes id q match_number) rest valid =
      handle_order_executed-put b'E' id q (put64 match_number rest) valid
  handle-put_message (executes_at id q match_number printable p) rest valid =
      handle_order_executed-put b'C' id q (put64 match_number (printable ∷ put32 p rest)) valid
  handle-put_message (cancels id q) rest valid = handle_order_cancel-put id q rest valid
  handle-put_message (deletes id) rest valid = handle_order_delete-put id rest valid
  handle-put_message (replaces old_id new_id q p) rest valid =
      handle_order_replace-put old_id new_id q p rest valid

message_size-put :
    (h : Stamp) (m : Message) (rest : List ℕ)
    → (itch_message_size (type_of (put_message h m rest)) ≡ size_of m)
      × (drop (size_of m) (put_message h m rest) ≡ rest)
      × (0 < size_of m)
unfolding itch_message_size type_of
message_size-put h (starts code) rest = (refl, refl, omega arith)
message_size-put h (lists s d) rest = (refl, refl, omega arith)
message_size-put h (adds id side q s p) rest = (refl, refl, omega arith)
message_size-put h (adds_for id side q s p mpid) rest = (refl, refl, omega arith)
message_size-put h (executes id q match_number) rest = (refl, refl, omega arith)
message_size-put h (executes_at id q match_number printable p) rest = (refl, refl, omega arith)
message_size-put h (cancels id q) rest = (refl, refl, omega arith)
message_size-put h (deletes id) rest = (refl, refl, omega arith)
message_size-put h (replaces old_id new_id q p) rest = (refl, refl, omega arith)

abbrev pub Packet : Type 0
Packet = List (Stamp × Message)

-- The packet on the wire, followed by `rest`.
abbrev pub put_packet : Packet → List ℕ → List ℕ
put_packet [] rest = rest
put_packet ((h, m) ∷ ms) rest = put_message h m (put_packet ms rest)

abbrev pub packet_size : Packet → ℕ
packet_size [] = 0
packet_size ((h, m) ∷ ms) = size_of m + packet_size ms

abbrev pub IsPacket : Packet → Type 0
IsPacket [] = Unit {0}
IsPacket ((h, m) ∷ ms) = IsMessage m × IsPacket ms

abbrev pub effects : Packet → Globals → Globals
effects [] g = g
effects ((h, m) ∷ ms) g = effects ms (effect m g)

packet_loop-put_packet :
    (n : ℕ) (ms : Packet) (g : Globals) (rest : List ℕ)
    → packet_size ms ≤ n
    → IsPacket ms
    → packet_loop n g (put_packet ms rest) (packet_size ms) ≡ effects ms g
unfolding packet_loop
packet_loop-put_packet zero [] g rest enough valid = refl
packet_loop-put_packet (suc n) [] g rest enough valid = refl
packet_loop-put_packet zero ((h, m) ∷ ms) g rest enough valid =
    absurd (omega (arith, enough, (message_size-put h m []).2))
packet_loop-put_packet (suc n) ((h, m) ∷ ms) g rest enough valid =
    let ptr = put_message h m (put_packet ms rest) in
    let (sized, dropped, some_size) = message_size-put h m (put_packet ms rest) in
    let now : handle g ptr ≡ effect m g = handle-put_message g h m (put_packet ms rest) valid.0 in
    let further =
      packet_loop-put_packet n ms (effect m g) rest (omega (arith, enough, some_size)) valid.1 in
    let k = size_of m in
    let left = packet_size ms in
    let begun : (k + left == 0) ≡ false = ground (arith, some_size) in
    let known : (k == 0) ≡ false = ground (arith, some_size) in
    let fits : ltb (k + left) k ≡ false = ground arith in
    let minus : k + left - k ≡ left = omega arith in
    rw (sized, now, dropped, begun, known, fits, minus) further

-- A packet of messages of the nine types back to back, with fields of their widths, is read to its
-- end, whatever stands behind it: its messages take effect one after the other on the books. A stock
-- directory makes the book of its symbol, if there is none.
pub parse_packet-put_packet :
    (ms : Packet) (g : Globals) (rest : List ℕ)
    → IsPacket ms
    → parse_packet g (put_packet ms rest) (packet_size ms) ≡ effects ms g
unfolding parse_packet
parse_packet-put_packet ms g rest valid =
    packet_loop-put_packet (packet_size ms) ms g rest (omega arith) valid
