-- ===== src/Arbiter/Order.antt =====
-- Whatever the feeds bring, the numbered messages leave the arbiter in order, without gap or
-- repetition.
use nasdaq_order_book.Base.{
  ℕ, suc, ◌+◌, ◌<◌, ◌≡◌, ◌⊎◌, inl, inr, refl, ap, ◌∙◌, true, false, Option, none, some, List, [],
  ◌∷◌, arith, ltb, leb, ◌==◌, if◌then◌else◌, length, take, Bool-cases, Option-cases,
}
use nasdaq_order_book.Itch.Messages.{slice}
use nasdaq_order_book.Arbiter.{
  PacketView, Arbiter, init, tracking_number_from, prune_expired, drop_duplicate, make_room,
  keep_for_later, accept, choose, pick_a_b, pick_b_a, load_feed_messages, or_pick_b_a, poll, serve,
  next_message,
}
use nasdaq_order_book.Arbiter.Gap.{
  Consecutive, IsAt, erase_first-IsItem, emplace-IsItem, prune_loop-IsItem, drain-IsAt,
}

-- What leaves: nothing or a message without a number, and the place stays; or the message of the
-- number `n`, and the next one follows.
abbrev pub Leaves : ℕ → Option PacketView × Arbiter → Type 0
Leaves n (none, a) = IsAt n a
Leaves n (some m, a) =
    ((tracking_number_from m ≡ 0) × IsAt n a) ⊎ ((tracking_number_from m ≡ n) × IsAt (n + 1) a)

copy_number : (msg : PacketView) → tracking_number_from (take 64 msg) ≡ tracking_number_from msg
unfolding tracking_number_from slice
copy_number [] = refl
copy_number (b₁ ∷ []) = refl
copy_number (b₁ ∷ b₂ ∷ []) = refl
copy_number (b₁ ∷ b₂ ∷ b₃ ∷ []) = refl
copy_number (b₁ ∷ b₂ ∷ b₃ ∷ b₄ ∷ []) = refl
copy_number (b₁ ∷ b₂ ∷ b₃ ∷ b₄ ∷ b₅ ∷ rest) = ground arith

make_room-IsAt :
    (n : ℕ) (a : Arbiter) → IsAt n a → IsAt n (make_room a) × ((make_room a).expected ≡ a.expected)
unfolding make_room
make_room-IsAt n a h = elim (Bool-cases (leb a.gap_capacity (length a.gap))) [
  | inr room ↦ rw room (h, refl)
  | inl full ↦ rw full (
    record {
      positive = h.positive;
      buffered = erase_first-IsItem (a.expected + 1) a.gap h.buffered;
      queued = h.queued;
    },
    refl,
  )
]

keep_for_later-IsAt :
    (n now : ℕ) (msg : PacketView) (a : Arbiter)
    → a.expected < tracking_number_from msg
    → IsAt n a
    → IsAt n (keep_for_later now (tracking_number_from msg) msg a)
unfolding keep_for_later
keep_for_later-IsAt n now msg a later h =
    let (h', same) = make_room-IsAt n a h in
    record {
      positive = h'.positive;
      buffered =
          emplace-IsItem ((make_room a).expected + 1) (tracking_number_from msg)
            (record { pkt = take 64 msg; ts = now }) (make_room a).gap
            (omega (arith, same, later), copy_number msg) h'.buffered;
      queued = h'.queued;
    }

accept-Leaves :
    (n now : ℕ) (msg : PacketView) (a : Arbiter)
    → IsAt n a
    → a.ready ≡ []
    → Leaves n (accept now msg a)
unfolding accept drop_duplicate
accept-Leaves n now msg a h idle =
    let tn = tracking_number_from msg in
    let caught_up : n ≡ a.expected = rw idle at h.queued in
    elim (Bool-cases (tn == 0)) [
      | inl unnumbered ↦ rw unnumbered (inl (ground arith, h))
      | inr numbered ↦ elim (Bool-cases (ltb tn a.expected)) [
        | inl old ↦
            rw (numbered, old)
              (record { positive = h.positive; buffered = h.buffered; queued = h.queued })
        | inr not_old ↦ elim (Bool-cases (ltb a.expected tn)) [
          | inl early ↦
              rw (numbered, not_old, early) (keep_for_later-IsAt n now msg a (ground arith) h)
          | inr due ↦
              rw (numbered, not_old, due)
                (inr (
                  ground arith,
                  drain-IsAt (n + 1) (length a.gap) (record a { expected = a.expected + 1 })
                      (omega arith) (omega arith) h.buffered (rw idle (ap (λ k. k + 1) caught_up)),
                ))
        ]
      ]
    ]

rebuffered-IsAt :
    (n : ℕ) (a : Arbiter) (x y : List PacketView)
    → IsAt n a
    → IsAt n (record a { buf_a = x; buf_b = y })
rebuffered-IsAt n a x y h = record {
  positive = h.positive;
  buffered = h.buffered;
  queued = h.queued;
}

pick_a_b-Leaves : (n now : ℕ) (a : Arbiter) → IsAt n a → a.ready ≡ [] → Leaves n (pick_a_b now a)
unfolding pick_a_b
pick_a_b-Leaves n now a h idle = elim (Option-cases (choose a.buf_a a.buf_b)) [
  | inl nothing ↦ rw (nothing, pick_a_b) h
  | inr ((m, x, y), chosen) ↦
      rw (chosen, pick_a_b)
        (accept-Leaves n now m (record a { buf_a = x; buf_b = y }) (rebuffered-IsAt n a x y h) idle)
]

pick_b_a-Leaves : (n now : ℕ) (a : Arbiter) → IsAt n a → a.ready ≡ [] → Leaves n (pick_b_a now a)
unfolding pick_b_a
pick_b_a-Leaves n now a h idle = elim (Option-cases (choose a.buf_b a.buf_a)) [
  | inl nothing ↦ rw (nothing, pick_b_a) h
  | inr ((m, y, x), chosen) ↦
      rw (chosen, pick_b_a)
        (accept-Leaves n now m (record a { buf_a = x; buf_b = y }) (rebuffered-IsAt n a x y h) idle)
]

-- A pick that finds nothing leaves nothing ready.
abbrev Idle : Option PacketView × Arbiter → Type 0
Idle (none, a) = a.ready ≡ []
Idle (some m, a) = Unit {0}

keep_for_later-Idle :
    (now tn : ℕ) (msg : PacketView) (a : Arbiter) → (keep_for_later now tn msg a).ready ≡ a.ready
unfolding keep_for_later make_room
keep_for_later-Idle now tn msg a = ground arith

accept-Idle : (now : ℕ) (msg : PacketView) (a : Arbiter) → a.ready ≡ [] → Idle (accept now msg a)
unfolding accept drop_duplicate
accept-Idle now msg a idle =
    let tn = tracking_number_from msg in
    elim (Bool-cases (tn == 0)) [
      | inl unnumbered ↦ rw unnumbered tt
      | inr numbered ↦ elim (Bool-cases (ltb tn a.expected)) [
        | inl old ↦ rw (numbered, old) idle
        | inr not_old ↦ elim (Bool-cases (ltb a.expected tn)) [
          | inl early ↦ rw (numbered, not_old, early) (keep_for_later-Idle now tn msg a ∙ idle)
          | inr due ↦ rw (numbered, not_old, due) tt
        ]
      ]
    ]

pick_a_b-Idle : (now : ℕ) (a : Arbiter) → a.ready ≡ [] → Idle (pick_a_b now a)
unfolding pick_a_b
pick_a_b-Idle now a idle = elim (Option-cases (choose a.buf_a a.buf_b)) [
  | inl nothing ↦ rw (nothing, pick_a_b) idle
  | inr ((m, x, y), chosen) ↦
      rw (chosen, pick_a_b) (accept-Idle now m (record a { buf_a = x; buf_b = y }) idle)
]

or_pick_b_a-Leaves :
    (n now : ℕ) (r : Option PacketView × Arbiter)
    → Leaves n r
    → Idle r
    → Leaves n (or_pick_b_a now r)
unfolding or_pick_b_a
or_pick_b_a-Leaves n now (some m, a) h idle = h
or_pick_b_a-Leaves n now (none, a) h idle = pick_b_a-Leaves n now a h idle

serve-Leaves :
    (n now : ℕ) (pkts_a pkts_b : List PacketView) (a : Arbiter) (ready : List PacketView)
    → a.ready ≡ ready
    → IsAt n a
    → Leaves n (serve now pkts_a pkts_b a ready)
unfolding serve poll
serve-Leaves n now pkts_a pkts_b a [] idle h =
    let a' = record a {
      buf_a = load_feed_messages pkts_a a.buf_a;
      buf_b = load_feed_messages pkts_b a.buf_b;
    } in
    let h' = rebuffered-IsAt n a a'.buf_a a'.buf_b h in
    or_pick_b_a-Leaves n now (pick_a_b now a') (pick_a_b-Leaves n now a' h' idle)
      (pick_a_b-Idle now a' idle)
serve-Leaves n now pkts_a pkts_b a (m ∷ ms) some_ready h =
    let queued = rw some_ready at h.queued in
    inr (queued.0, record { positive = omega arith; buffered = h.buffered; queued = queued.1 })

prune_expired-IsAt : (n now : ℕ) (a : Arbiter) → IsAt n a → IsAt n (prune_expired now a)
unfolding prune_expired
prune_expired-IsAt n now a h = record {
  positive = h.positive;
  buffered = prune_loop-IsItem (a.expected + 1) now a.ttl a.gap a.metrics h.buffered;
  queued = h.queued;
}

next_message-Leaves :
    (n now : ℕ) (pkts_a pkts_b : List PacketView) (a : Arbiter)
    → IsAt n a
    → Leaves n (next_message now pkts_a pkts_b a)
unfolding next_message
next_message-Leaves n now pkts_a pkts_b a h =
    serve-Leaves n now pkts_a pkts_b (prune_expired now a) (prune_expired now a).ready refl
      (prune_expired-IsAt n now a h)

-- A call of `next_message`: its time, and what the feeds bring.
pub record Poll : Type 0 where
  pub now : ℕ
  pub pkts_a : List PacketView
  pub pkts_b : List PacketView

-- A message that left, if it has a number, before those that follow.
unfoldable pub numbered : Option PacketView → List PacketView → List PacketView
numbered none ms = ms
numbered (some m) ms = if tracking_number_from m == 0 then ms else m ∷ ms

-- The numbered messages that leave during some calls.
unfoldable pub outputs : List Poll → Arbiter → List PacketView
unfolding numbered
outputs [] a = []
outputs (p ∷ ps) a =
    let (m, a') = next_message p.now p.pkts_a p.pkts_b a in numbered m (outputs ps a')

after :
    (ps : List Poll) (n : ℕ) (r : Option PacketView × Arbiter)
    → 0 < n
    → Leaves n r
    → ((m : ℕ) (a : Arbiter) → IsAt m a → Consecutive m (outputs ps a) (m + length (outputs ps a)))
    → Consecutive n (numbered r.0 (outputs ps r.1)) (n + length (numbered r.0 (outputs ps r.1)))
unfolding numbered
after ps n (none, a) pos h later = later n a h
after ps n (some m, a) pos (inl (zero_number, h)) later =
    let left_out : (tracking_number_from m == 0) ≡ true = ground arith in rw left_out (later n a h)
after ps n (some m, a) pos (inr (own, h)) later =
    let counts : (tracking_number_from m == 0) ≡ false = ground arith in
    let sum : n + suc (length (outputs ps a)) ≡ n + 1 + length (outputs ps a) = omega arith in
    rw (counts, sum) (own, later (n + 1) a h)

outputs-Consecutive :
    (ps : List Poll) (n : ℕ) (a : Arbiter)
    → IsAt n a
    → Consecutive n (outputs ps a) (n + length (outputs ps a))
unfolding outputs
outputs-Consecutive [] n a h = omega arith
outputs-Consecutive (p ∷ ps) n a h =
    after ps n (next_message p.now p.pkts_a p.pkts_b a) h.positive
      (next_message-Leaves n p.now p.pkts_a p.pkts_b a h) (outputs-Consecutive ps)

-- Over any calls, with any packets on the two feeds and any times, the numbered messages that leave
-- have the tracking numbers 1, 2, 3 and so on, without gap or repetition.
pub next_message-Consecutive :
    (gap_capacity ttl : ℕ) (ps : List Poll)
    → let out = outputs ps (init gap_capacity ttl) in Consecutive 1 out (1 + length out)
unfolding init
next_message-Consecutive gap_capacity ttl ps =
    outputs-Consecutive ps 1 (init gap_capacity ttl)
      (record { positive = omega arith; buffered = tt; queued = refl })
