-- ===== src/Publisher/Drain.antt =====
-- The thread of `MarketDataPublisher` while nothing new is published.
use mathlib.Core.Path.{subst}
use nasdaq_order_book.Base.{
  ℕ, zero, suc, ◌+◌, ◌%◌, ◌<◌, ◌≡◌, refl, sym, ap, ◌∙◌, true, List, [], ◌∷◌, if◌then◌else◌, arith,
  length, add64, u64_mod,
}
use nasdaq_order_book.Publisher.Messages.{
  MessageType, level1_update, level2_update, trade_report, symbol_status, snapshot_l1, snapshot_l2,
  MarketDataMessage,
}
use nasdaq_order_book.Publisher.State.{Stats, Publisher}
use nasdaq_order_book.Publisher.Publishing.{pop}
use nasdaq_order_book.Publisher.Delivery.{
  deliver_message, count_type, update_stats, process, round_at, publisher_round,
}

-- `n` rounds, with what the clock says at each.
unfoldable pub rounds : ℕ → (ℕ → ℕ) → Publisher → Publisher
rounds zero clock p = p
rounds (suc n) clock p = rounds n clock (publisher_round p (clock n))

total-count_type :
    (type : MessageType) (s : Stats) → (count_type type s).total_messages ≡ s.total_messages
unfolding count_type
total-count_type level1_update s = refl
total-count_type level2_update s = refl
total-count_type trade_report s = refl
total-count_type symbol_status s = refl
total-count_type snapshot_l1 s = refl
total-count_type snapshot_l2 s = refl

-- What a round does to a queue that is not empty.
record IsAfter (p q : Publisher) (queue : List MarketDataMessage) : Type 0 where
  pub queued : q.message_queue ≡ queue
  pub running : q.running ≡ true
  pub total : q.stats.total_messages ≡ add64 p.stats.total_messages 1

process-IsAfter :
    (p : Publisher) (now : ℕ) (m : MarketDataMessage) (queue : List MarketDataMessage)
    → p.running ≡ true
    → p.message_queue ≡ m ∷ queue
    → IsAfter p (process p now m) queue
unfolding process update_stats deliver_message pop
process-IsAfter p now m queue on e = record {
  queued = ap pop e;
  running = on;
  total =
      total-count_type m.type
        (record (p.stats) { total_messages = add64 p.stats.total_messages 1 });
}

round-IsAfter :
    (p : Publisher) (now : ℕ) (m : MarketDataMessage) (queue : List MarketDataMessage)
    → p.running ≡ true
    → p.message_queue ≡ m ∷ queue
    → IsAfter p (publisher_round p now) queue
unfolding publisher_round round_at
round-IsAfter p now m queue on e =
    let shape : publisher_round p now ≡ process p now m =
      ap (round_at p now) e ∙ ap (λ b. if b then process p now m else p) on in
    subst (λ q. IsAfter p q queue) (sym shape) (process-IsAfter p now m queue on e)

drained :
    (queue : List MarketDataMessage) (p : Publisher) (clock : ℕ → ℕ)
    → p.running ≡ true
    → p.message_queue ≡ queue
    → p.stats.total_messages < u64_mod
    → let q = rounds (length queue) clock p in
      (q.message_queue ≡ [])
      × (q.running ≡ true)
      × (q.stats.total_messages ≡ (p.stats.total_messages + length queue) % u64_mod)
unfolding rounds
drained [] p clock on e small = (e, on, omega (arith, small))
drained (m ∷ queue) p clock on e small =
    let now = clock (length queue) in
    let after = round-IsAfter p now m queue on e in
    let rest =
      drained queue (publisher_round p now) clock after.running after.queued
        (omega (arith, after.total)) in
    (rest.0, rest.1, omega (arith, rest.2, after.total))

-- While the publisher runs and nothing new comes, the thread empties the queue in as many rounds as
-- it holds messages, goes on running, and counts each message once.
pub rounds_drain :
    (p : Publisher) (clock : ℕ → ℕ)
    → p.running ≡ true
    → p.stats.total_messages < u64_mod
    → let q = rounds (length p.message_queue) clock p in
      (q.message_queue ≡ [])
      × (q.running ≡ true)
      × (q.stats.total_messages ≡ (p.stats.total_messages + length p.message_queue) % u64_mod)
rounds_drain p clock on small = drained p.message_queue p clock on refl small
