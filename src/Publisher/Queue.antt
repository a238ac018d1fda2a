-- ===== src/Publisher/Queue.antt =====
-- What becomes of the messages that are published.
use nasdaq_order_book.Base.{
  ℕ, ◌+◌, ◌-◌, ◌%◌, ◌≤◌, ◌≡◌, u64_mod, Bool, true, false, List, [], ◌∷◌, ◌++◌, length, add64,
}
use nasdaq_order_book.Publisher.Messages.{MessageType, Payload, MarketDataMessage}
use nasdaq_order_book.Publisher.State.{Publisher, Config, init}
use nasdaq_order_book.Publisher.Publishing.{publish}
use nasdaq_order_book.Publisher.Delivery.{publisher_round}

abbrev pub Messages : Type 0
Messages = List MarketDataMessage

-- `xs` is `ys` without some of its items.
pub data Sublist : Messages → Messages → Type 0 where
  done : Sublist [] []
  keep : {m : MarketDataMessage} {xs ys : Messages} → Sublist xs ys → Sublist (m ∷ xs) (m ∷ ys)
  skip : {m : MarketDataMessage} {xs ys : Messages} → Sublist xs ys → Sublist xs (m ∷ ys)

-- The message that `publish` makes.
abbrev pub message_of : Publisher → MessageType → (ℕ → Payload) → MarketDataMessage
message_of p type build = record {
  type = type;
  sequence_number = p.sequence_number;
  payload = build (add64 p.sequence_number 1);
}

-- What a round takes out of the queue.
unfoldable pub taken : Bool → Messages → Messages
taken running [] = []
taken true (m ∷ queue) = m ∷ []
taken false (m ∷ queue) = []

-- A publisher that has come from its beginning, the messages that were published, and those that
-- the thread has taken, in order. What touches neither the queue nor the count of dropped messages is
-- any change.
pub data Run (config : Config) : Publisher → Messages → Messages → Type 0 where
  begins : Run config (init config) [] []
  publishes :
      {p : Publisher} {published processed : Messages} (type : MessageType) (build : ℕ → Payload)
      → Run config p published processed
      → Run config (publish p type build) (published ++ message_of p type build ∷ []) processed
  rounds :
      {p : Publisher} {published processed : Messages} (now : ℕ)
      → Run config p published processed
      → Run config (publisher_round p now) published (processed ++ taken p.running p.message_queue)
  changes :
      {p q : Publisher} {published processed : Messages}
      → Run config p published processed
      → q.message_queue ≡ p.message_queue
      → q.config ≡ p.config
      → q.stats.dropped_messages ≡ p.stats.dropped_messages
      → Run config q published processed

-- The length that the queue may have: at least one message.
abbrev pub room : Config → ℕ
room c = c.max_queue_size + (1 - c.max_queue_size)

-- What a run keeps.
record IsRun (config : Config) (p : Publisher) (published processed : Messages) : Type 0 where
  pub order : Sublist (processed ++ p.message_queue) published
  pub fits : length p.message_queue ≤ room config
  pub configured : p.config ≡ config
  pub counted :
      (length processed + length p.message_queue + p.stats.dropped_messages) % u64_mod
      ≡ length published % u64_mod
