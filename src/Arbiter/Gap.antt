-- ===== src/Arbiter/Gap.antt =====
-- The gap buffer and the queue of drained messages.
use nasdaq_order_book.Base.{
  ℕ, zero, suc, ◌+◌, ◌-◌, ◌≤◌, ◌<◌, ◌≡◌, inl, inr, sym, ap, ◌∙◌, none, some, List, [], ◌∷◌, ◌++◌,
  arith, ltb, ◌==◌, length, All, Bool-cases, Option-cases,
}
use nasdaq_order_book.Arbiter.{
  PacketView, GapItem, ArbiterMetrics, Arbiter, tracking_number_from, prune_loop, emplace, find_gap,
  erase_gap, erase_first, drain,
}

-- The tracking numbers of the messages run from `n` up to `e`, which is not among them.
abbrev pub Consecutive : ℕ → List PacketView → ℕ → Type 0
Consecutive n [] e = n ≡ e
Consecutive n (m ∷ ms) e = (tracking_number_from m ≡ n) × Consecutive (n + 1) ms e

Consecutive-snoc :
    (n : ℕ) (ms : List PacketView) (e : ℕ) (m : PacketView)
    → Consecutive n ms e
    → tracking_number_from m ≡ e
    → Consecutive n (ms ++ (m ∷ [])) (e + 1)
Consecutive-snoc n [] e m h t = (t ∙ sym h, ap (λ k. k + 1) h)
Consecutive-snoc n (m' ∷ ms) e m h t = (h.0, Consecutive-snoc (n + 1) ms e m h.1 t)

-- An item of the gap buffer is filed under its own number, which is `e` or above.
abbrev pub IsItem : ℕ → ℕ × GapItem → Type 0
IsItem e (k, item) = (e ≤ k) × (tracking_number_from item.pkt ≡ k)

-- The next numbered message to leave has the number `n`.
pub record IsAt (n : ℕ) (a : Arbiter) : Type 0 where
  pub positive : 0 < n
  pub buffered : All (IsItem (a.expected + 1)) a.gap
  pub queued : Consecutive n a.ready a.expected

pub erase_first-IsItem :
    (e : ℕ) (gap : List (ℕ × GapItem)) → All (IsItem e) gap → All (IsItem e) (erase_first gap)
unfolding erase_first
erase_first-IsItem e [] h = tt
erase_first-IsItem e (g ∷ gap) h = h.1

pub emplace-IsItem :
    (e tn : ℕ) (item : GapItem) (gap : List (ℕ × GapItem))
    → IsItem e (tn, item)
    → All (IsItem e) gap
    → All (IsItem e) (emplace tn item gap)
unfolding emplace
emplace-IsItem e tn item [] new h = (new, tt)
emplace-IsItem e tn item ((k, other) ∷ gap) new h = elim (Bool-cases (tn == k)) [
  | inl same ↦ rw same h
  | inr different ↦ elim (Bool-cases (ltb tn k)) [
    | inl before ↦ rw (different, before) (new, h)
    | inr after ↦ rw (different, after) (h.0, emplace-IsItem e tn item gap new h.1)
  ]
]

find_gap-IsItem :
    (e tn : ℕ) (gap : List (ℕ × GapItem)) (item : GapItem)
    → All (IsItem e) gap
    → find_gap tn gap ≡ some item
    → tracking_number_from item.pkt ≡ tn
unfolding find_gap
find_gap-IsItem e tn [] item h found = absurd (ground arith)
find_gap-IsItem e tn ((k, other) ∷ gap) item h found = elim (Bool-cases (k == tn)) [
  | inl here ↦ ground (arith, h.0.1)
  | inr later ↦ find_gap-IsItem e tn gap item h.1 (ground arith)
]

erase_gap-IsItem :
    (e : ℕ) (gap : List (ℕ × GapItem)) → All (IsItem e) gap → All (IsItem (e + 1)) (erase_gap e gap)
unfolding erase_gap
erase_gap-IsItem e [] h = tt
erase_gap-IsItem e ((k, item) ∷ gap) h = elim (Bool-cases (k == e)) [
  | inl here ↦ rw here (erase_gap-IsItem e gap h.1)
  | inr later ↦ rw later ((ground arith, h.0.1), erase_gap-IsItem e gap h.1)
]

pub prune_loop-IsItem :
    (e now ttl : ℕ) (gap : List (ℕ × GapItem)) (ms : ArbiterMetrics)
    → All (IsItem e) gap
    → All (IsItem e) (prune_loop now ttl gap ms).0
unfolding prune_loop
prune_loop-IsItem e now ttl [] ms h = tt
prune_loop-IsItem e now ttl ((tn, item) ∷ gap) ms h = elim (Bool-cases (ltb ttl (now - item.ts))) [
  | inl old ↦ rw old (prune_loop-IsItem e now ttl gap _ h.1)
  | inr young ↦ rw young h
]

find_gap-none :
    (e : ℕ) (gap : List (ℕ × GapItem))
    → All (IsItem e) gap
    → find_gap e gap ≡ none
    → All (IsItem (e + 1)) gap
unfolding find_gap
find_gap-none e [] h miss = tt
find_gap-none e ((k, item) ∷ gap) h miss =
    ((ground (arith, h.0.0), h.0.1), find_gap-none e gap h.1 (ground arith))

length-erase_gap_le : (tn : ℕ) (gap : List (ℕ × GapItem)) → length (erase_gap tn gap) ≤ length gap
unfolding erase_gap
length-erase_gap_le tn [] = omega arith
length-erase_gap_le tn ((k, item) ∷ gap) = ground (arith, length-erase_gap_le tn gap)

length-erase_gap :
    (tn : ℕ) (gap : List (ℕ × GapItem)) (item : GapItem)
    → find_gap tn gap ≡ some item
    → length (erase_gap tn gap) < length gap
unfolding erase_gap find_gap
length-erase_gap tn [] item found = absurd (ground arith)
length-erase_gap tn ((k, other) ∷ gap) item found = elim (Bool-cases (k == tn)) [
  | inl here ↦ rw here (omega (arith, length-erase_gap_le tn gap))
  | inr later ↦ rw later (omega (arith, length-erase_gap tn gap item (ground arith)))
]

no_items : (P : ℕ × GapItem → Type 0) (gap : List (ℕ × GapItem)) → length gap ≤ 0 → All P gap
no_items P [] h = tt
no_items P (g ∷ gap) h = absurd (omega arith)

-- While consecutive gaps are drained, an item of the expected number may be in the buffer.
pub drain-IsAt :
    (m n : ℕ) (a : Arbiter)
    → length a.gap ≤ n
    → 0 < m
    → All (IsItem a.expected) a.gap
    → Consecutive m a.ready a.expected
    → IsAt m (drain n a)
unfolding drain
drain-IsAt m zero a enough pos items queued = record {
  positive = pos;
  buffered = no_items (IsItem (a.expected + 1)) a.gap enough;
  queued = queued;
}
drain-IsAt m (suc n) a enough pos items queued = elim (Option-cases (find_gap a.expected a.gap)) [
  | inl miss ↦
      rw (miss, drain)
        (record {
          positive = pos;
          buffered = find_gap-none a.expected a.gap items miss;
          queued = queued;
        })
  | inr (item, found) ↦
      rw (found, drain)
        (drain-IsAt m n _ (omega (arith, length-erase_gap a.expected a.gap item found)) pos
          (erase_gap-IsItem a.expected a.gap items)
          (Consecutive-snoc m a.ready a.expected item.pkt queued
            (find_gap-IsItem a.expected a.expected a.gap item items found)))
]
