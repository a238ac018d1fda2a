-- ===== src/Arbiter.antt =====
-- `net::Arbiter` of include/net/arbiter.hpp and src/net/arbiter.cpp. A view of a packet is the list of
-- its bytes; what a feed hands over until it is empty, and the time, are arguments of the call. The
-- number that is expected does not wrap: it grows past numbers of 16 bits only.
pub mod Gap
pub mod Order
mod Tests
use nasdaq_order_book.Base.{
  ℕ, zero, suc, ◌+◌, ◌*◌, ◌-◌, ◌^◌, Bool, true, false, ◌||◌, Option, none, some, List, [], ◌∷◌,
  ◌++◌, ltb, leb, ◌==◌, if◌then◌else◌, length, take, drop, add64,
}
use nasdaq_order_book.Itch.Bytes.{load, byte}
use nasdaq_order_book.Itch.Messages.{common_header_size, itch_message_size, slice}
use nasdaq_order_book.Itch.Decoder.{type_of}

abbrev pub PacketView : Type 0
PacketView = List ℕ

pub record ArbiterMetrics : Type 0 where
  pub gap_detected : ℕ
  pub gap_filled : ℕ
  pub dup_dropped : ℕ
  pub gap_dropped_ttl : ℕ
  pub gap_dropped_capacity : ℕ

pub record GapItem : Type 0 where
  pub pkt : PacketView
  pub ts : ℕ

-- `gap` is the ordered map, its entries by rising key.
pub record Arbiter : Type 0 where
  pub expected : ℕ
  pub gap : List (ℕ × GapItem)
  pub gap_capacity : ℕ
  pub ttl : ℕ
  pub metrics : ArbiterMetrics
  pub buf_a : List PacketView
  pub buf_b : List PacketView
  pub ready : List PacketView

abbrev pub no_metrics : ArbiterMetrics
no_metrics = record {
  gap_detected = 0;
  gap_filled = 0;
  dup_dropped = 0;
  gap_dropped_ttl = 0;
  gap_dropped_capacity = 0;
}

unfoldable pub init : ℕ → ℕ → Arbiter
init gap_capacity ttl = record {
  expected = 1;
  gap = [];
  gap_capacity = gap_capacity;
  ttl = ttl;
  metrics = no_metrics;
  buf_a = [];
  buf_b = [];
  ready = [];
}

unfoldable pub ntohs : ℕ → ℕ
ntohs v = byte 0 v * 2 ^ 8 + byte 1 v

unfoldable pub tracking_number_from : PacketView → ℕ
tracking_number_from pkt =
    if ltb (length pkt) common_header_size then 0 else ntohs (load (slice 3 2 pkt))

-- The inner loop of `load_feed_messages` with `n` rounds left: the messages of a packet.
unfoldable pub split_packet : ℕ → PacketView → List PacketView
split_packet zero cur = []
split_packet (suc n) cur =
    let msz = itch_message_size (type_of cur) in
    let rest = split_packet n (drop msz cur) in
    if length cur == 0
    then []
    else if msz == 0 || ltb (length cur) msz
    then []
    else take msz cur ∷ rest

unfoldable pub load_feed_messages : List PacketView → List PacketView → List PacketView
load_feed_messages [] buf = buf
load_feed_messages (pkt ∷ pkts) buf = load_feed_messages pkts (buf ++ split_packet (length pkt) pkt)

-- The loop of `prune_expired`
unfoldable pub prune_loop :
    ℕ → ℕ → List (ℕ × GapItem) → ArbiterMetrics → List (ℕ × GapItem) × ArbiterMetrics
prune_loop now ttl [] ms = ([], ms)
prune_loop now ttl ((tn, item) ∷ gap) ms =
    let rest =
      prune_loop now ttl gap (record ms { gap_dropped_ttl = add64 ms.gap_dropped_ttl 1 }) in
    if ltb ttl (now - item.ts) then rest else ((tn, item) ∷ gap, ms)

unfoldable pub prune_expired : ℕ → Arbiter → Arbiter
prune_expired now a =
    let (gap, ms) = prune_loop now a.ttl a.gap a.metrics in record a { gap = gap; metrics = ms }

-- `gap_.emplace`: a key that is there keeps its item.
unfoldable pub emplace : ℕ → GapItem → List (ℕ × GapItem) → List (ℕ × GapItem)
emplace tn item [] = (tn, item) ∷ []
emplace tn item ((k, other) ∷ gap) =
    let rest = emplace tn item gap in
    if tn == k
    then (k, other) ∷ gap
    else if ltb tn k
    then (tn, item) ∷ ((k, other) ∷ gap)
    else (k, other) ∷ rest

unfoldable pub find_gap : ℕ → List (ℕ × GapItem) → Option GapItem
find_gap tn [] = none
find_gap tn ((k, item) ∷ gap) = let rest = find_gap tn gap in if k == tn then some item else rest

unfoldable pub erase_gap : ℕ → List (ℕ × GapItem) → List (ℕ × GapItem)
erase_gap tn [] = []
erase_gap tn ((k, item) ∷ gap) =
    let rest = erase_gap tn gap in if k == tn then rest else (k, item) ∷ rest

-- `gap_.erase(gap_.begin())`. An empty map, which is full only at a capacity of 0, has no first item:
-- the call is undefined in C++, and is taken to change nothing.
unfoldable pub erase_first : List (ℕ × GapItem) → List (ℕ × GapItem)
erase_first [] = []
erase_first (_ ∷ gap) = gap

-- The loop that drains consecutive gaps, with `n` rounds left.
unfoldable pub drain : ℕ → Arbiter → Arbiter
drain zero a = a
drain (suc n) a = elim (find_gap a.expected a.gap) [
  | none ↦ a
  | some item ↦ drain n (record a {
    ready = a.ready ++ (item.pkt ∷ []);
    gap = erase_gap a.expected a.gap;
    metrics = record (a.metrics) { gap_filled = add64 a.metrics.gap_filled 1 };
    expected = a.expected + 1;
  })
]

unfoldable pub drop_duplicate : Arbiter → Arbiter
drop_duplicate a = record a {
  metrics = record (a.metrics) { dup_dropped = add64 a.metrics.dup_dropped 1 };
}

unfoldable pub make_room : Arbiter → Arbiter
make_room a =
    if leb a.gap_capacity (length a.gap)
    then record a {
      metrics = record (a.metrics) {
        gap_dropped_capacity = add64 a.metrics.gap_dropped_capacity 1;
      };
      gap = erase_first a.gap;
    }
    else a

-- A message from the future is copied into the gap buffer, 64 bytes of it at most.
unfoldable pub keep_for_later : ℕ → ℕ → PacketView → Arbiter → Arbiter
keep_for_later now tn msg a =
    let a' = make_room a in
    record a' {
      gap = emplace tn (record { pkt = take 64 msg; ts = now }) a'.gap;
      metrics = record (a'.metrics) { gap_detected = add64 a'.metrics.gap_detected 1 };
    }

-- What `pick_next` does with the message that it took.
unfoldable pub accept : ℕ → PacketView → Arbiter → Option PacketView × Arbiter
accept now msg a =
    let tn = tracking_number_from msg in
    if tn == 0
    then (some msg, a)
    else if ltb tn a.expected
    then (none, drop_duplicate a)
    else if ltb a.expected tn
    then (none, keep_for_later now tn msg a)
    else (some msg, drain (length a.gap) (record a { expected = a.expected + 1 }))

-- The message that `pick_next` takes, and the two buffers after it.
unfoldable pub choose :
    List PacketView → List PacketView → Option (PacketView × List PacketView × List PacketView)
choose [] [] = none
choose (m ∷ x) [] = some (m, x, [])
choose [] (m ∷ y) = some (m, [], y)
choose (m ∷ x) (n ∷ y) =
    if leb (tracking_number_from m) (tracking_number_from n)
    then some (m, x, n ∷ y)
    else some (n, m ∷ x, y)

unfoldable pub pick_a_b : ℕ → Arbiter → Option PacketView × Arbiter
pick_a_b now a = elim (choose a.buf_a a.buf_b) [
  | none ↦ (none, a)
  | some (m, x, y) ↦ accept now m (record a { buf_a = x; buf_b = y })
]

unfoldable pub pick_b_a : ℕ → Arbiter → Option PacketView × Arbiter
pick_b_a now a = elim (choose a.buf_b a.buf_a) [
  | none ↦ (none, a)
  | some (m, y, x) ↦ accept now m (record a { buf_a = x; buf_b = y })
]

unfoldable pub or_pick_b_a : ℕ → Option PacketView × Arbiter → Option PacketView × Arbiter
or_pick_b_a now (some m, a) = (some m, a)
or_pick_b_a now (none, a) = pick_b_a now a

-- The case that nothing is ready
unfoldable pub poll : ℕ → List PacketView → List PacketView → Arbiter → Option PacketView × Arbiter
poll now pkts_a pkts_b a = or_pick_b_a now (
    pick_a_b now (record a {
      buf_a = load_feed_messages pkts_a a.buf_a;
      buf_b = load_feed_messages pkts_b a.buf_b;
    }))

unfoldable pub serve :
    ℕ → List PacketView → List PacketView → Arbiter → List PacketView → Option PacketView × Arbiter
serve now pkts_a pkts_b a [] = poll now pkts_a pkts_b a
serve now pkts_a pkts_b a (m ∷ ms) = (some m, record a { ready = ms })

unfoldable pub next_message :
    ℕ → List PacketView → List PacketView → Arbiter → Option PacketView × Arbiter
next_message now pkts_a pkts_b a =
    let a' = prune_expired now a in serve now pkts_a pkts_b a' a'.ready
