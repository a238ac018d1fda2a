-- ===== src/FileMode/Ends.antt =====
-- The loop over a file ends.
use nasdaq_order_book.Base.{
  ℕ, zero, suc, ◌+◌, ◌-◌, ◌≤◌, ◌<◌, ◌≡◌, inl, inr, refl, ap, true, false, Option, none, some, List,
  [], ◌∷◌, arith, length, drop, Bool-cases,
}
use nasdaq_order_book.Core.Event.{ItchEvent}
use nasdaq_order_book.Itch.Decoder.{decode_one}
use nasdaq_order_book.FileMode.{
  FileRun, apply_decoded, advance, at_end, file_loop, start, run_file_mode,
}

length-drop {ℓ} : {A : Type ℓ} → (n : ℕ) (xs : List A) → length (drop n xs) ≡ length xs - n
length-drop zero xs = omega arith
length-drop (suc n) [] = omega arith
length-drop (suc n) (x ∷ xs) = omega (arith, length-drop n xs)

module _ {ℓ} {Book : Type ℓ} (apply_event : ItchEvent → Book → Book) where
  pub cur-apply_decoded :
      (e : Option ItchEvent) (r : FileRun Book) → (apply_decoded apply_event e r).cur ≡ r.cur
  unfolding apply_decoded
  cur-apply_decoded none r = refl
  cur-apply_decoded (some e) r = refl

  advance-shorter :
      (r : FileRun Book)
      → at_end apply_event r ≡ false
      → length (advance apply_event r).cur < length r.cur
  unfolding advance at_end
  advance-shorter r go =
      let (res, symtab') = decode_one r.symtab r.cur in
      let kept =
        cur-apply_decoded res.event
          (record r { symtab = symtab'; msgs = r.msgs + 1; cur = drop res.message_size r.cur }) in
      ground (arith, ap length kept, length-drop res.message_size r.cur)

  at_end-empty : (r : FileRun Book) → length r.cur ≤ 0 → at_end apply_event r ≡ true
  unfolding at_end
  at_end-empty r h = ground arith

  file_loop-ends :
      (n : ℕ) (r : FileRun Book)
      → length r.cur ≤ n
      → at_end apply_event (file_loop apply_event n r) ≡ true
  unfolding file_loop
  file_loop-ends zero r h = at_end-empty r h
  file_loop-ends (suc n) r h = elim (Bool-cases (at_end apply_event r)) [
    | inl stop ↦ rw stop stop
    | inr go ↦
        rw go (file_loop-ends n (advance apply_event r) (omega (arith, advance-shorter r go)))
  ]

  -- However the file ends, the loop stops there: nothing is left, or what is left is no message.
  pub run_file_mode-ends :
      (ob : Book) (buffer : List ℕ)
      → at_end apply_event (run_file_mode apply_event ob buffer) ≡ true
  unfolding run_file_mode start
  run_file_mode-ends ob buffer =
      file_loop-ends (length buffer) (start apply_event ob buffer) (omega arith)
