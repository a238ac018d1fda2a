-- ===== src/Arbiter/Tests.antt =====
-- An arbiter on two feeds.
use nasdaq_order_book.Base.{ℕ, ◌+◌, List, [], ◌∷◌, length}
use nasdaq_order_book.Arbiter.{PacketView, init}
use nasdaq_order_book.Arbiter.Gap.{Consecutive}
use nasdaq_order_book.Arbiter.Order.{Poll, outputs, next_message-Consecutive}

-- A system event with a tracking number
abbrev event : ℕ → PacketView
event tn = b'S' ∷ 0 ∷ 1 ∷ 0 ∷ tn ∷ 0 ∷ 0 ∷ 0 ∷ 0 ∷ 0 ∷ 0 ∷ b'O' ∷ []

-- Feed A loses the first message and feed B repeats the second.
abbrev polls : List Poll
polls =
    record { now = 10; pkts_a = event 2 ∷ []; pkts_b = event 1 ∷ event 2 ∷ [] }
    ∷ record { now = 11; pkts_a = []; pkts_b = [] }
    ∷ record { now = 12; pkts_a = event 3 ∷ []; pkts_b = [] }
    ∷ []

next_message-Consecutive_example :
    Consecutive 1 (outputs polls (init 100 50)) (1 + length (outputs polls (init 100 50)))
next_message-Consecutive_example = next_message-Consecutive 100 50 polls
