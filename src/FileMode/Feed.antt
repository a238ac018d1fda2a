-- ===== src/FileMode/Feed.antt =====
-- Over a file of messages the loop applies their events in order.
use nasdaq_order_book.Base.{
  ℕ, zero, suc, ◌+◌, ◌≤◌, ◌<◌, ◌≡◌, refl, ap, ◌∙◌, true, false, Option, none, some, List, [], ◌∷◌,
  arith, length, drop, All,
}
use nasdaq_order_book.Core.Event.{ItchEvent}
use nasdaq_order_book.Core.Symbols.{SymbolTable, init}
use nasdaq_order_book.Itch.Decoder.{decode_one}
use nasdaq_order_book.Itch.Decoder.Roundtrip.{
  Stamp, Message, starts, lists, adds, adds_for, executes, executes_at, cancels, deletes, replaces,
  IsMessage, put_message, meaning, size_of, decode_one-put_message,
}
use nasdaq_order_book.FileMode.Ends.{cur-apply_decoded}
use nasdaq_order_book.FileMode.{
  FileRun, apply_decoded, advance, at_end, file_loop, start, run_file_mode,
}

-- A file of messages, with their stamps, and what follows them.
unfoldable pub put_all : List (Stamp × Message) → List ℕ → List ℕ
put_all [] tail = tail
put_all ((h, m) ∷ ms) tail = put_message h m (put_all ms tail)

unfoldable pub cons_event : Option ItchEvent → List ItchEvent → List ItchEvent
cons_event none es = es
cons_event (some e) es = e ∷ es

-- The events that the messages mean, beginning with the table `t` of symbols.
unfoldable pub events_of : SymbolTable → List (Stamp × Message) → List ItchEvent
unfolding cons_event
events_of t [] = []
events_of t ((h, m) ∷ ms) = cons_event (meaning t m).0 (events_of (meaning t m).1 ms)

drop-put_message :
    (h : Stamp) (m : Message) (rest : List ℕ) → drop (size_of m) (put_message h m rest) ≡ rest
drop-put_message h (starts code) rest = refl
drop-put_message h (lists s d) rest = refl
drop-put_message h (adds id side q s p) rest = refl
drop-put_message h (adds_for id side q s p mpid) rest = refl
drop-put_message h (executes id q match_number) rest = refl
drop-put_message h (executes_at id q match_number printable p) rest = refl
drop-put_message h (cancels id q) rest = refl
drop-put_message h (deletes id) rest = refl
drop-put_message h (replaces old_id new_id q p) rest = refl

length-put_message :
    (h : Stamp) (m : Message) (rest : List ℕ)
    → length (put_message h m rest) ≡ size_of m + length rest
length-put_message h (starts code) rest = omega arith
length-put_message h (lists s d) rest = omega arith
length-put_message h (adds id side q s p) rest = omega arith
length-put_message h (adds_for id side q s p mpid) rest = omega arith
length-put_message h (executes id q match_number) rest = omega arith
length-put_message h (executes_at id q match_number printable p) rest = omega arith
length-put_message h (cancels id q) rest = omega arith
length-put_message h (deletes id) rest = omega arith
length-put_message h (replaces old_id new_id q p) rest = omega arith

size_of_positive : (m : Message) → 0 < size_of m
size_of_positive (starts code) = omega arith
size_of_positive (lists s d) = omega arith
size_of_positive (adds id side q s p) = omega arith
size_of_positive (adds_for id side q s p mpid) = omega arith
size_of_positive (executes id q match_number) = omega arith
size_of_positive (executes_at id q match_number printable p) = omega arith
size_of_positive (cancels id q) = omega arith
size_of_positive (deletes id) = omega arith
size_of_positive (replaces old_id new_id q p) = omega arith

module _ {ℓ} {Book : Type ℓ} (apply_event : ItchEvent → Book → Book) where
  -- A message at the head of what is left is applied, and the loop goes on behind it.
  module _ (r : FileRun Book) (h : Stamp) (m : Message) (rest : List ℕ) (valid : IsMessage m)
      (here : r.cur ≡ put_message h m rest) where
    decoded : decode_one r.symtab r.cur ≡ (
      record { event = (meaning r.symtab m).0; message_size = size_of m },
      (meaning r.symtab m).1,
    )
    decoded = ap (decode_one r.symtab) here ∙ decode_one-put_message h r.symtab m rest valid

    at_end-put_message : at_end apply_event r ≡ false
    unfolding at_end
    at_end-put_message = ground (
      arith,
      ap length here,
      length-put_message h m rest,
      size_of_positive m,
      ap (λ d. d.0.message_size) decoded,
    )

    abbrev behind : FileRun Book
    behind = record r { symtab = (meaning r.symtab m).1; msgs = r.msgs + 1; cur = rest }

    advance-put_message :
        advance apply_event r ≡ apply_decoded apply_event (meaning r.symtab m).0 behind
    unfolding advance
    advance-put_message =
        ap
          (λ d.
            apply_decoded apply_event d.0.event
              (record r { symtab = d.1; msgs = r.msgs + 1; cur = drop d.0.message_size r.cur }))
          decoded
        ∙ ap (λ c. apply_decoded apply_event (meaning r.symtab m).0 (record behind { cur = c }))
            (ap (drop (size_of m)) here ∙ drop-put_message h m rest)

  unfoldable pub apply_list : List ItchEvent → Book → Book
  apply_list [] ob = ob
  apply_list (e ∷ es) ob = apply_list es (apply_event e ob)

  -- The run `f` went on from `r` to `tail`, and applied the events `es` of `n` messages.
  pub record HasRun (tail : List ℕ) (n : ℕ) (es : List ItchEvent) (r f : FileRun Book)
      : Type ℓ where
    pub applied : f.ob ≡ apply_list es r.ob
    pub left : f.cur ≡ tail
    pub counted : f.msgs ≡ r.msgs + n
    pub applied_count : f.events ≡ r.events + length es

  module _ (tail : List ℕ)
      (undecodable : (t : SymbolTable) → (decode_one t tail).0.message_size ≡ 0) where
    tail_at_end : (r : FileRun Book) → r.cur ≡ tail → at_end apply_event r ≡ true
    unfolding at_end
    tail_at_end r h =
        ground (arith, undecodable r.symtab, ap (λ c. (decode_one r.symtab c).0.message_size) h)

    stop_at_tail : (n : ℕ) (r : FileRun Book) → r.cur ≡ tail → file_loop apply_event n r ≡ r
    unfolding file_loop
    stop_at_tail zero r h = refl
    stop_at_tail (suc n) r h = rw (tail_at_end r h) refl

    symtab-apply_decoded :
        (e : Option ItchEvent) (q : FileRun Book)
        → (apply_decoded apply_event e q).symtab ≡ q.symtab
    unfolding apply_decoded
    symtab-apply_decoded none q = refl
    symtab-apply_decoded (some e) q = refl

    -- One more message in front of a run.
    HasRun-cons :
        (e : Option ItchEvent) (es : List ItchEvent) (n : ℕ) (r f : FileRun Book) (t : SymbolTable)
        (rest : List ℕ)
        → HasRun tail n es
            (apply_decoded apply_event e (record r { symtab = t; msgs = r.msgs + 1; cur = rest }))
            f
        → HasRun tail (suc n) (cons_event e es) r f
    unfolding apply_decoded apply_list cons_event
    HasRun-cons none es n r f t rest run = record {
      applied = run.applied;
      left = run.left;
      counted = omega (arith, run.counted);
      applied_count = run.applied_count;
    }
    HasRun-cons (some e) es n r f t rest run = record {
      applied = run.applied;
      left = run.left;
      counted = omega (arith, run.counted);
      applied_count = omega (arith, run.applied_count);
    }

    file_loop-feed :
        (ms : List (Stamp × Message)) (n : ℕ) (r : FileRun Book)
        → All (λ hm. IsMessage hm.1) ms
        → r.cur ≡ put_all ms tail
        → length r.cur ≤ n
        → HasRun tail (length ms) (events_of r.symtab ms) r (file_loop apply_event n r)
    unfolding put_all events_of file_loop apply_list apply_decoded
    file_loop-feed [] n r valid here h =
        rw (stop_at_tail n r here) (record {
          applied = refl;
          left = here;
          counted = omega arith;
          applied_count = omega arith;
        })
    file_loop-feed ((st, m) ∷ ms) zero r valid here h = absurd (
        ground
          (arith, ap length here, length-put_message st m (put_all ms tail), size_of_positive m))
    file_loop-feed ((st, m) ∷ ms) (suc n) r valid here h =
        let rest = put_all ms tail in
        let e = (meaning r.symtab m).0 in
        let q = behind r st m rest valid.0 here in
        let next = apply_decoded apply_event e q in
        let cur_next = cur-apply_decoded apply_event e q in
        let shorter : length next.cur ≤ n = omega (
          arith,
          h,
          ap length here,
          ap length cur_next,
          length-put_message st m rest,
          size_of_positive m,
        ) in
        let later = file_loop-feed ms n next valid.1 cur_next shorter in
        rw
          (
            at_end-put_message r st m rest valid.0 here,
            advance-put_message r st m rest valid.0 here,
          )
          (HasRun-cons e (events_of (meaning r.symtab m).1 ms) (length ms) r
            (file_loop apply_event n next) (meaning r.symtab m).1 rest
            (rw (symtab-apply_decoded e q) at later))

    -- Over a file of messages of the nine types, with fields of their widths, that ends in something
    -- that is no message, or in nothing, the loop applies the events of the messages in order, counts
    -- messages and events, and stops there. A system event and a stock directory have no event.
    pub run_file_mode-HasRun :
        (ob : Book) (ms : List (Stamp × Message))
        → All (λ hm. IsMessage hm.1) ms
        → HasRun tail
            (length ms)
            (events_of init ms)
            (start apply_event ob (put_all ms tail))
            (run_file_mode apply_event ob (put_all ms tail))
    unfolding run_file_mode start
    run_file_mode-HasRun ob ms valid =
        file_loop-feed ms (length (put_all ms tail)) (start apply_event ob (put_all ms tail)) valid
          refl (omega arith)
