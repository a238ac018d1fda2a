-- ===== src/Publisher/Tests.antt =====
-- A publisher in small.
use nasdaq_order_book.Base.{ℕ, ◌+◌, ◌%◌, ◌≡◌, refl, true, [], ◌∷◌, arith, length, u64_mod}
use nasdaq_order_book.Base.Assoc.{lookup, insert}
use nasdaq_order_book.Matching.Manager.{inactive, opened}
use nasdaq_order_book.Publisher.Messages.{
  symbol_status, symbol_of, Payload, status, build_symbol_status,
}
use nasdaq_order_book.Publisher.State.{Config, Publisher, sends, notifies, init, start, call}
use nasdaq_order_book.Publisher.Subscribers.{
  set_subscribers, add_subscriber, is_for, renew, set_subscriptions, new_subscription, subscribe,
  subscribe_all_symbols,
}
use nasdaq_order_book.Publisher.Publishing.{pop, drop_first, drop_oldest, enqueue_message, publish}
use nasdaq_order_book.Publisher.Delivery.{
  fits, is_due, touch, should_deliver, deliver_to, deliver_loop, deliver_message, count_type,
  update_stats, process, round_at, publisher_round,
}
use nasdaq_order_book.Publisher.Queue.{rounds, message_of}
use nasdaq_order_book.Publisher.Drain
use nasdaq_order_book.Publisher.Drain.{rounds_drain}

-- The queue holds two messages.
abbrev config : Config
config = record {
  max_queue_size = 2;
  enable_level1 = true;
  enable_level2 = true;
  enable_trades = true;
  enable_status = true;
  default_l2_depth = 10;
}

abbrev opens : ℕ → ℕ → Payload
opens symbol n = status (build_symbol_status n symbol inactive opened [])

abbrev started : Publisher
started = (start (init config)).1

abbrev one : Publisher
one = publish started symbol_status (opens 1)

abbrev two : Publisher
two = publish one symbol_status (opens 2)

abbrev three : Publisher
three = publish two symbol_status (opens 3)

rounds_drain_example :
    let q = Drain.rounds (length two.message_queue) (λ n. 7) two in
    (q.message_queue ≡ [])
    × (q.running ≡ true)
    × (q.stats.total_messages ≡ (two.stats.total_messages + length two.message_queue) % u64_mod)
unfolding start init publish enqueue_message drop_oldest
rounds_drain_example = rounds_drain two (λ n. 7) refl (omega arith)

-- A subscriber to all symbols with the throttle of 1 ms: the second of two messages about different
-- symbols, published at once, does not reach it.
abbrev subscribed : Publisher
subscribed = (subscribe_all_symbols (add_subscriber started 4).1 4 symbol_status).1

abbrev both : Publisher
both =
    publisher_round
      (publisher_round
        (publish (publish subscribed symbol_status (opens 1)) symbol_status (opens 2)) 5000000)
      5000001

throttled :
    both.calls
    ≡ notifies 4 0 symbol_status true ∷ sends 4 (message_of subscribed symbol_status (opens 1)) ∷ []
unfolding init start call lookup insert set_subscribers add_subscriber is_for renew
    set_subscriptions new_subscription subscribe subscribe_all_symbols pop drop_first drop_oldest
    enqueue_message publish symbol_of fits is_due touch should_deliver deliver_to deliver_loop
    deliver_message count_type update_stats process round_at publisher_round build_symbol_status
throttled = refl
