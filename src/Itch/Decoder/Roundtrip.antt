-- ===== src/Itch/Decoder/Roundtrip.antt =====
-- What the decoder makes of messages in the layout of ITCH 5.0.
use nasdaq_order_book.Base.{ℕ, ◌<◌, ◌≡◌, Option, none, some, List, [], ◌∷◌, arith, u32_mod, u64_mod}
use nasdaq_order_book.Core.Event.{ItchEvent, add, exec, cancel, delete, replace}
use nasdaq_order_book.Core.Symbols.{SymbolTable, get_or_intern}
use nasdaq_order_book.Itch.Bytes.{load, put32, put64, ntohl-put32, bswap64-put64}
use nasdaq_order_book.Itch.Messages.{
  itch_message_size, slice, add_order, order_executed, order_cancel, order_delete, order_replace,
}
use nasdaq_order_book.Itch.Decoder.{
  type_of, decode_add, decode_exec, decode_cancel, decode_delete, decode_replace, decode_event,
  decode_one,
}

-- What every message carries after its type: stock locate, tracking number and time stamp.
pub record Stamp : Type 0 where
  pub b₁ : ℕ
  pub b₂ : ℕ
  pub b₃ : ℕ
  pub b₄ : ℕ
  pub b₅ : ℕ
  pub b₆ : ℕ
  pub b₇ : ℕ
  pub b₈ : ℕ
  pub b₉ : ℕ
  pub b₁₀ : ℕ

-- A stock symbol: eight bytes.
pub record Symbol : Type 0 where
  pub s₁ : ℕ
  pub s₂ : ℕ
  pub s₃ : ℕ
  pub s₄ : ℕ
  pub s₅ : ℕ
  pub s₆ : ℕ
  pub s₇ : ℕ
  pub s₈ : ℕ

abbrev pub put_symbol : Symbol → List ℕ → List ℕ
put_symbol s rest = s.s₁ ∷ s.s₂ ∷ s.s₃ ∷ s.s₄ ∷ s.s₅ ∷ s.s₆ ∷ s.s₇ ∷ s.s₈ ∷ rest

abbrev pub put_head : ℕ → Stamp → List ℕ → List ℕ
put_head type h rest =
    type ∷ h.b₁ ∷ h.b₂ ∷ h.b₃ ∷ h.b₄ ∷ h.b₅ ∷ h.b₆ ∷ h.b₇ ∷ h.b₈ ∷ h.b₉ ∷ h.b₁₀ ∷ rest

-- The fields of a stock directory behind its symbol: market category, financial status, round lot
-- size, round lots only, classification, sub-type, authenticity, short sale threshold, flag of a
-- new issue, tier, flag of a traded fund, leverage, inverse indicator.
pub record Directory : Type 0 where
  pub market_category : ℕ
  pub financial_status : ℕ
  pub round_lot_size : ℕ
  pub round_lots_only : ℕ
  pub classification : ℕ
  pub sub_type₁ : ℕ
  pub sub_type₂ : ℕ
  pub authenticity : ℕ
  pub short_sale_threshold : ℕ
  pub ipo_flag : ℕ
  pub luld_tier : ℕ
  pub etp_flag : ℕ
  pub etp_leverage : ℕ
  pub inverse : ℕ

abbrev pub put_directory : Directory → List ℕ → List ℕ
put_directory d rest =
    d.market_category
    ∷ d.financial_status
    ∷ put32 d.round_lot_size (
        d.round_lots_only
        ∷ d.classification
        ∷ d.sub_type₁
        ∷ d.sub_type₂
        ∷ d.authenticity
        ∷ d.short_sale_threshold
        ∷ d.ipo_flag
        ∷ d.luld_tier
        ∷ d.etp_flag
        ∷ put32 d.etp_leverage (d.inverse ∷ rest))

-- The messages of the nine types of ITCH 5.0 that the program reads, with their fields.
pub data Message : Type 0 where
  -- a system event and its code
  starts : ℕ → Message
  -- a stock directory: symbol and the other fields
  lists : Symbol → Directory → Message
  -- identifier, side, shares, symbol, price
  adds : ℕ → ℕ → ℕ → Symbol → ℕ → Message
  -- the same and the attribution
  adds_for : ℕ → ℕ → ℕ → Symbol → ℕ → ℕ → Message
  -- identifier, executed shares, match number
  executes : ℕ → ℕ → ℕ → Message
  -- the same, the printable flag and the price
  executes_at : ℕ → ℕ → ℕ → ℕ → ℕ → Message
  cancels : ℕ → ℕ → Message
  deletes : ℕ → Message
  -- old and new identifier, shares, price
  replaces : ℕ → ℕ → ℕ → ℕ → Message

-- The message on the wire, followed by `rest`.
abbrev pub put_message : Stamp → Message → List ℕ → List ℕ
put_message h (starts code) rest = put_head b'S' h (code ∷ rest)
put_message h (lists s d) rest = put_head b'R' h (put_symbol s (put_directory d rest))
put_message h (adds id side q s p) rest =
    put_head b'A' h (put64 id (side ∷ put32 q (put_symbol s (put32 p rest))))
put_message h (adds_for id side q s p mpid) rest =
    put_head b'F' h (put64 id (side ∷ put32 q (put_symbol s (put32 p (put32 mpid rest)))))
put_message h (executes id q match_number) rest =
    put_head b'E' h (put64 id (put32 q (put64 match_number rest)))
put_message h (executes_at id q match_number printable p) rest =
    put_head b'C' h (put64 id (put32 q (put64 match_number (printable ∷ put32 p rest))))
put_message h (cancels id q) rest = put_head b'X' h (put64 id (put32 q rest))
put_message h (deletes id) rest = put_head b'D' h (put64 id rest)
put_message h (replaces old_id new_id q p) rest =
    put_head b'U' h (put64 old_id (put64 new_id (put32 q (put32 p rest))))

-- Its fields have their widths.
abbrev pub IsMessage : Message → Type 0
IsMessage (starts code) = Unit {0}
IsMessage (lists s d) = Unit {0}
IsMessage (adds_for id side q s p mpid) = (id < u64_mod) × (q < u32_mod) × (p < u32_mod)
IsMessage (executes_at id q match_number printable p) = (id < u64_mod) × (q < u32_mod)
IsMessage (adds id side q s p) = (id < u64_mod) × (q < u32_mod) × (p < u32_mod)
IsMessage (executes id q match_number) = (id < u64_mod) × (q < u32_mod)
IsMessage (cancels id q) = (id < u64_mod) × (q < u32_mod)
IsMessage (deletes id) = id < u64_mod
IsMessage (replaces old_id new_id q p) =
    (old_id < u64_mod) × (new_id < u64_mod) × (q < u32_mod) × (p < u32_mod)

-- The event that it means, and the table of symbols after it.
abbrev pub meaning : SymbolTable → Message → Option ItchEvent × SymbolTable
meaning t (starts code) = (none, t)
meaning t (lists s d) = (none, t)
meaning t (adds id side q s p) =
    let (sym_id, t') = get_or_intern t (put_symbol s []) in (some (add id side q p sym_id), t')
meaning t (adds_for id side q s p mpid) =
    let (sym_id, t') = get_or_intern t (put_symbol s []) in (some (add id side q p sym_id), t')
meaning t (executes id q match_number) = (some (exec id q), t)
meaning t (executes_at id q match_number printable p) = (some (exec id q), t)
meaning t (cancels id q) = (some (cancel id q), t)
meaning t (deletes id) = (some (delete id), t)
meaning t (replaces old_id new_id q p) = (some (replace old_id new_id q p 0), t)

abbrev pub size_of : Message → ℕ
size_of (starts code) = 12
size_of (lists s d) = 39
size_of (adds id side q s p) = 36
size_of (adds_for id side q s p mpid) = 40
size_of (executes id q match_number) = 31
size_of (executes_at id q match_number printable p) = 36
size_of (cancels id q) = 23
size_of (deletes id) = 19
size_of (replaces old_id new_id q p) = 35

pub load_one : (b : ℕ) → load (b ∷ []) ≡ b
unfolding load
load_one b = omega arith

module _ (h : Stamp) where
  decode_add-put :
      (type id side q : ℕ) (s : Symbol) (p : ℕ) (rest : List ℕ) (t : SymbolTable)
      → (id < u64_mod) × (q < u32_mod) × (p < u32_mod)
      → decode_add t (put_head type h (put64 id (side ∷ put32 q (put_symbol s (put32 p rest))))) ≡ (
        add id side q p (get_or_intern t (put_symbol s [])).0,
        (get_or_intern t (put_symbol s [])).1,
      )
  unfolding decode_add add_order slice
  decode_add-put type id side q s p rest t valid =
      cc (bswap64-put64 id valid.0, load_one side, ntohl-put32 q valid.1, ntohl-put32 p valid.2)

  decode_exec-put :
      (type id q : ℕ) (rest : List ℕ)
      → (id < u64_mod) × (q < u32_mod)
      → decode_exec (put_head type h (put64 id (put32 q rest))) ≡ exec id q
  unfolding decode_exec order_executed slice
  decode_exec-put type id q rest valid = cc (bswap64-put64 id valid.0, ntohl-put32 q valid.1)

  decode_cancel-put :
      (id q : ℕ) (rest : List ℕ)
      → (id < u64_mod) × (q < u32_mod)
      → decode_cancel (put_head b'X' h (put64 id (put32 q rest))) ≡ cancel id q
  unfolding decode_cancel order_cancel slice
  decode_cancel-put id q rest valid = cc (bswap64-put64 id valid.0, ntohl-put32 q valid.1)

  decode_delete-put :
      (id : ℕ) (rest : List ℕ)
      → id < u64_mod
      → decode_delete (put_head b'D' h (put64 id rest)) ≡ delete id
  unfolding decode_delete order_delete slice
  decode_delete-put id rest valid = cc (bswap64-put64 id valid)

  decode_replace-put :
      (old_id new_id q p : ℕ) (rest : List ℕ)
      → (old_id < u64_mod) × (new_id < u64_mod) × (q < u32_mod) × (p < u32_mod)
      → decode_replace (put_head b'U' h (put64 old_id (put64 new_id (put32 q (put32 p rest)))))
        ≡ replace old_id new_id q p 0
  unfolding decode_replace order_replace slice
  decode_replace-put old_id new_id q p rest valid = cc (
    bswap64-put64 old_id valid.0,
    bswap64-put64 new_id valid.1,
    ntohl-put32 q valid.2,
    ntohl-put32 p valid.3,
  )

  -- Decoding a message that stands at the head of the buffer gives its event and its size, whatever
  -- follows it, and interns the symbol of an added order; a system event and a stock directory give no
  -- event and intern nothing.
  pub decode_one-put_message :
      (t : SymbolTable) (m : Message) (rest : List ℕ)
      → IsMessage m
      → decode_one t (put_message h m rest)
        ≡ (record { event = (meaning t m).0; message_size = size_of m }, (meaning t m).1)
  unfolding decode_one decode_event itch_message_size type_of
  decode_one-put_message t (starts code) rest valid = ground arith
  decode_one-put_message t (lists s d) rest valid = ground arith
  decode_one-put_message t (adds id side q s p) rest valid =
      ground (arith, decode_add-put b'A' id side q s p rest t valid)
  decode_one-put_message t (adds_for id side q s p mpid) rest valid =
      ground (arith, decode_add-put b'F' id side q s p (put32 mpid rest) t valid)
  decode_one-put_message t (executes id q match_number) rest valid =
      ground (arith, decode_exec-put b'E' id q (put64 match_number rest) valid)
  decode_one-put_message t (executes_at id q match_number printable p) rest valid =
      ground
        (arith, decode_exec-put b'C' id q (put64 match_number (printable ∷ put32 p rest)) valid)
  decode_one-put_message t (cancels id q) rest valid =
      ground (arith, decode_cancel-put id q rest valid)
  decode_one-put_message t (deletes id) rest valid = ground (arith, decode_delete-put id rest valid)
  decode_one-put_message t (replaces old_id new_id q p) rest valid =
      ground (arith, decode_replace-put old_id new_id q p rest valid)
