-- ===== src/Publisher/Publishing.antt =====
-- How `MarketDataPublisher` puts messages into its queue, and its snapshots.
use nasdaq_order_book.Base.{
  ℕ, ◌*◌, Bool, true, false, not, none, some, List, [], ◌∷◌, ◌++◌, leb, if◌then◌else◌, length, take,
  add64, u32_mod, ◌%◌,
}
use nasdaq_order_book.Base.Assoc.{keys, lookup}
use nasdaq_order_book.Matching.Types.{Fill}
use nasdaq_order_book.Matching.Engine.{Engine}
use nasdaq_order_book.Matching.Manager.{SymbolState}
use nasdaq_order_book.Publisher.Messages.{
  MessageType, level1_update, level2_update, trade_report, symbol_status, snapshot_l1, snapshot_l2,
  Level2Update, Payload, level1, level2, trade, status, MarketDataMessage, build_level1_update,
  build_level2_update, build_trade_report, build_symbol_status,
}
use nasdaq_order_book.Publisher.State.{Subscription, no_stats, Called, sends, Publisher, call}

-- `message_queue_.pop()`
unfoldable pub pop : List MarketDataMessage → List MarketDataMessage
pop [] = []
pop (_ ∷ queue) = queue

unfoldable pub drop_first : Publisher → Publisher
unfolding pop
drop_first p = record p {
  message_queue = pop p.message_queue;
  stats = record (p.stats) { dropped_messages = add64 p.stats.dropped_messages 1 };
}

unfoldable pub drop_oldest : Publisher → Publisher
unfolding drop_first
drop_oldest p = if leb p.config.max_queue_size (length p.message_queue) then drop_first p else p

unfoldable pub enqueue_message : Publisher → MarketDataMessage → Publisher
unfolding drop_oldest
enqueue_message p m =
    let p₁ = drop_oldest p in record p₁ { message_queue = p₁.message_queue ++ m ∷ [] }

-- The number of a message is taken before its payload is built.
unfoldable pub publish : Publisher → MessageType → (ℕ → Payload) → Publisher
unfolding enqueue_message
publish p type build =
    let next = add64 p.sequence_number 1 in
    enqueue_message (record p { sequence_number = next })
      (record { type = type; sequence_number = p.sequence_number; payload = build next })

unfoldable pub publish_level1_update : Publisher → Engine → ℕ → Publisher
unfolding publish build_level1_update
publish_level1_update p engine symbol =
    if not p.config.enable_level1
    then p
    else publish p level1_update λ n. level1 (build_level1_update engine n symbol)

unfoldable pub publish_level2_update : Publisher → Engine → ℕ → Publisher
unfolding publish build_level2_update
publish_level2_update p engine symbol =
    if not p.config.enable_level2
    then p
    else publish p level2_update
        λ n. level2 (build_level2_update engine p.config.default_l2_depth n symbol false)

unfoldable pub publish_trade : Publisher → Fill → Publisher
unfolding publish build_trade_report
publish_trade p fill =
    if not p.config.enable_trades
    then p
    else publish p trade_report λ n. trade (build_trade_report n fill)

unfoldable pub publish_symbol_status :
    Publisher → ℕ → SymbolState → SymbolState → List ℕ → Publisher
unfolding publish build_symbol_status
publish_symbol_status p symbol old_state new_state reason =
    if not p.config.enable_status
    then p
    else publish p symbol_status
        λ n. status (build_symbol_status n symbol old_state new_state reason)

-- Of a level 2 snapshot, as many levels as `resize` keeps; the bids come first. The product is a `uint32_t`.
unfoldable pub limit_depth : ℕ → Level2Update → Level2Update
limit_depth depth u = record u { price_levels = take (depth * 2 % u32_mod) u.price_levels }

unfoldable pub call_if : Bool → Publisher → Called → Publisher
unfolding call
call_if b p c = if b then call p c else p

-- A message for one subscriber, past the queue.
unfoldable pub send_to : Publisher → ℕ → MarketDataMessage → Publisher
unfolding call_if
send_to p id m = elim (lookup id p.subscribers) [
  | none ↦ p
  | some info ↦ call_if info.active p (sends id m)
]

unfoldable pub send_snapshot : Publisher → ℕ → MessageType → (ℕ → Payload) → Publisher
unfolding send_to
send_snapshot p id type build =
    let next = add64 p.sequence_number 1 in
    send_to (record p { sequence_number = next }) id
      (record { type = type; sequence_number = p.sequence_number; payload = build next })

unfoldable pub send_level1_snapshot : Publisher → Engine → ℕ → ℕ → Publisher
unfolding send_snapshot build_level1_update
send_level1_snapshot p engine id symbol =
    send_snapshot p id snapshot_l1 λ n. level1 (build_level1_update engine n symbol)

unfoldable pub send_level2_snapshot : Publisher → Engine → ℕ → ℕ → ℕ → Publisher
unfolding send_snapshot build_level2_update limit_depth
send_level2_snapshot p engine id symbol depth = send_snapshot p id snapshot_l2 λ n.
    level2 (limit_depth depth (build_level2_update engine p.config.default_l2_depth n symbol true))

unfoldable pub reset_stats : Publisher → Publisher
reset_stats p = record p { stats = record no_stats { subscribers = length p.subscribers } }

unfoldable pub get_subscriber_ids : Publisher → List ℕ
unfolding keys
get_subscriber_ids p = keys p.subscribers

unfoldable pub get_subscriptions : Publisher → ℕ → List Subscription
get_subscriptions p id = elim (lookup id p.subscribers) [
  | none ↦ []
  | some info ↦ info.subscriptions
]
