-- ===== src/Publisher/Subscribers.antt =====
-- Subscribers and subscriptions of `MarketDataPublisher`.
use nasdaq_order_book.Base.{
  ℕ, Bool, true, false, ◌&&◌, Option, none, some, List, [], ◌∷◌, ◌++◌, ◌==◌, if◌then◌else◌, length,
}
use nasdaq_order_book.Base.Assoc.{lookup, insert, erase}
use nasdaq_order_book.Publisher.Messages.{MessageType, code}
use nasdaq_order_book.Publisher.State.{Subscription, SubscriberInfo, notifies, Publisher, call}

-- `subscribers_` after a change, and the count of them in the statistics.
unfoldable pub set_subscribers : Publisher → List (ℕ × SubscriberInfo) → Publisher
set_subscribers p subs = record p {
  subscribers = subs;
  stats = record (p.stats) { subscribers = length subs };
}

unfoldable pub add_subscriber : Publisher → ℕ → Bool × Publisher
unfolding set_subscribers
add_subscriber p id = elim (lookup id p.subscribers) [
  | some _ ↦ (false, p)
  | none ↦ (
    true,
    set_subscribers p (insert id (record { subscriptions = []; active = true }) p.subscribers),
  )
]

unfoldable pub remove_subscriber : Publisher → ℕ → Bool × Publisher
unfolding set_subscribers
remove_subscriber p id = elim (lookup id p.subscribers) [
  | none ↦ (false, p)
  | some _ ↦ (true, set_subscribers p (erase id p.subscribers))
]

unfoldable pub is_for : ℕ → MessageType → Subscription → Bool
is_for symbol type s = (s.symbol == symbol) && (code s.message_type == code type)

-- The loop that looks for a subscription and updates it; none where there is none.
unfoldable pub renew : ℕ → MessageType → ℕ → ℕ → List Subscription → Option (List Subscription)
unfolding is_for
renew symbol type depth throttle [] = none
renew symbol type depth throttle (s ∷ ss) =
    let rest = renew symbol type depth throttle ss in
    if is_for symbol type s
    then some (record s { max_depth = depth; throttle_ms = throttle; enabled = true } ∷ ss)
    else elim rest [ none ↦ none | some ks ↦ some (s ∷ ks) ]

unfoldable pub set_subscriptions : Publisher → ℕ → SubscriberInfo → List Subscription → Publisher
set_subscriptions p id info ss = record p {
  subscribers = insert id (record info { subscriptions = ss }) p.subscribers;
}

unfoldable pub new_subscription : ℕ → MessageType → ℕ → ℕ → Subscription
new_subscription symbol type depth throttle = record {
  symbol = symbol;
  message_type = type;
  enabled = true;
  max_depth = depth;
  throttle_ms = throttle;
  last_sent = 0;
}

unfoldable pub subscribe : Publisher → ℕ → ℕ → MessageType → ℕ → ℕ → Bool × Publisher
unfolding renew set_subscriptions call new_subscription
subscribe p id symbol type depth throttle = elim (lookup id p.subscribers) [
  | none ↦ (false, p)
  | some info ↦ elim (renew symbol type depth throttle info.subscriptions) [
    | some ss ↦ (true, set_subscriptions p id info ss)
    | none ↦ (
      true,
      call
          (set_subscriptions p id info
            (info.subscriptions ++ new_subscription symbol type depth throttle ∷ []))
          (notifies id symbol type true),
    )
  ]
]

-- The loop that erases the first subscription that fits; none where there is none.
unfoldable pub drop_subscription : ℕ → MessageType → List Subscription → Option (List Subscription)
unfolding is_for
drop_subscription symbol type [] = none
drop_subscription symbol type (s ∷ ss) =
    let rest = drop_subscription symbol type ss in
    if is_for symbol type s then some ss else elim rest [ none ↦ none | some ks ↦ some (s ∷ ks) ]

unfoldable pub unsubscribe : Publisher → ℕ → ℕ → MessageType → Bool × Publisher
unfolding drop_subscription set_subscriptions call
unsubscribe p id symbol type = elim (lookup id p.subscribers) [
  | none ↦ (false, p)
  | some info ↦ elim (drop_subscription symbol type info.subscriptions) [
    | none ↦ (false, p)
    | some ss ↦ (true, call (set_subscriptions p id info ss) (notifies id symbol type false))
  ]
]

-- The default arguments of `subscribe`
abbrev pub default_depth : ℕ
default_depth = 10

abbrev pub default_throttle : ℕ
default_throttle = 1

unfoldable pub subscribe_all_symbols : Publisher → ℕ → MessageType → Bool × Publisher
unfolding subscribe
subscribe_all_symbols p id type = subscribe p id 0 type default_depth default_throttle

unfoldable pub subscribe_symbol_list : Publisher → ℕ → List ℕ → MessageType → Bool × Publisher
unfolding subscribe
subscribe_symbol_list p id [] type = (true, p)
subscribe_symbol_list p id (symbol ∷ symbols) type =
    let (ok, p₁) = subscribe p id symbol type default_depth default_throttle in
    let (rest, p₂) = subscribe_symbol_list p₁ id symbols type in (ok && rest, p₂)
