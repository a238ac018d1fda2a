-- ===== src/Publisher/Delivery.antt =====
-- The loop of the publisher's thread: a message leaves the queue, and the subscribers whose
-- subscriptions want it are called.
use nasdaq_order_book.Base.{
  ℕ, ◌*◌, ◌-◌, Bool, true, false, ◌&&◌, ◌||◌, List, [], ◌∷◌, ◌++◌, leb, ◌==◌, if◌then◌else◌, add64,
}
use nasdaq_order_book.Publisher.Messages.{
  MessageType, level1_update, level2_update, trade_report, symbol_status, snapshot_l1, snapshot_l2,
  code, MarketDataMessage, symbol_of,
}
use nasdaq_order_book.Publisher.State.{
  Subscription, SubscriberInfo, Stats, Called, sends, Publisher,
}
use nasdaq_order_book.Publisher.Publishing.{pop}

-- The type and the symbol are those of the subscription; symbol 0 stands for all.
unfoldable pub fits : MarketDataMessage → Subscription → Bool
unfolding symbol_of
fits m s =
    s.enabled
    && ((code s.message_type == code m.type)
        && ((s.symbol == 0) || (s.symbol == symbol_of m.payload)))

abbrev pub nanoseconds : ℕ
nanoseconds = 1000000

-- It is not too soon after the last message of the subscription; a throttle of 0 is none.
unfoldable pub is_due : ℕ → Subscription → Bool
is_due now s = (s.throttle_ms == 0) || leb (s.throttle_ms * nanoseconds) (now - s.last_sent)

unfoldable pub touch : ℕ → Subscription → Subscription
touch now s = if s.throttle_ms == 0 then s else record s { last_sent = now }

-- The answer, and the subscriptions with the time of the one that was found.
unfoldable pub should_deliver : ℕ → MarketDataMessage → List Subscription → Bool × List Subscription
unfolding fits is_due touch
should_deliver now m [] = (false, [])
should_deliver now m (s ∷ ss) =
    let (found, rest) = should_deliver now m ss in
    if fits m s && is_due now s then (true, touch now s ∷ ss) else (found, s ∷ rest)

-- A subscriber that is not active is not asked.
unfoldable pub deliver_to : ℕ → MarketDataMessage → SubscriberInfo → Bool × SubscriberInfo
unfolding should_deliver
deliver_to now m info =
    let (found, ss) = should_deliver now m info.subscriptions in
    if info.active then (found, record info { subscriptions = ss }) else (false, info)

-- The loop over the subscribers. The clock is read once for a message here, and for each
-- subscription in the code. An exception of a subscriber is printed, and the loop goes on.
unfoldable pub deliver_loop :
    ℕ → MarketDataMessage → List (ℕ × SubscriberInfo) → List (ℕ × SubscriberInfo) × List Called
unfolding deliver_to
deliver_loop now m [] = ([], [])
deliver_loop now m ((id, info) ∷ infos) =
    let (found, info₁) = deliver_to now m info in
    let (rest, calls) = deliver_loop now m infos in
    ((id, info₁) ∷ rest, if found then sends id m ∷ calls else calls)

unfoldable pub deliver_message : Publisher → ℕ → MarketDataMessage → Publisher
unfolding deliver_loop
deliver_message p now m =
    let (infos, calls) = deliver_loop now m p.subscribers in
    record p { subscribers = infos; calls = p.calls ++ calls }

-- The counter of the type
unfoldable pub count_type : MessageType → Stats → Stats
count_type level1_update s = record s { level1_messages = add64 s.level1_messages 1 }
count_type snapshot_l1 s = record s { level1_messages = add64 s.level1_messages 1 }
count_type level2_update s = record s { level2_messages = add64 s.level2_messages 1 }
count_type snapshot_l2 s = record s { level2_messages = add64 s.level2_messages 1 }
count_type trade_report s = record s { trade_messages = add64 s.trade_messages 1 }
count_type symbol_status s = record s { status_messages = add64 s.status_messages 1 }

unfoldable pub update_stats : MessageType → Publisher → Publisher
unfolding count_type
update_stats type p = record p {
  stats = count_type type (record (p.stats) { total_messages = add64 p.stats.total_messages 1 });
}

-- The body of the loop at the message that left the queue.
unfoldable pub process : Publisher → ℕ → MarketDataMessage → Publisher
unfolding deliver_message update_stats pop
process p now m =
    update_stats m.type (deliver_message (record p { message_queue = pop p.message_queue }) now m)

-- A round at the queue: nothing happens while it is empty or after `stop`.
unfoldable pub round_at : Publisher → ℕ → List MarketDataMessage → Publisher
unfolding process
round_at p now [] = p
round_at p now (m ∷ _) = if p.running then process p now m else p

unfoldable pub publisher_round : Publisher → ℕ → Publisher
unfolding round_at
publisher_round p now = round_at p now p.message_queue
