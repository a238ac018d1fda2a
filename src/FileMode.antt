-- ===== src/FileMode.antt =====
-- `run_file_mode_impl` of src/main.cpp: the loop over the bytes of a file. The book and the
-- application of an event to it are parameters, as in the template.
pub mod Ends
pub mod Feed
mod Tests
use nasdaq_order_book.Base.{
  ℕ, zero, suc, ◌+◌, Bool, true, false, ◌||◌, Option, none, some, List, [], ◌∷◌, ◌==◌,
  if◌then◌else◌, length, drop,
}
use nasdaq_order_book.Core.Event.{ItchEvent}
use nasdaq_order_book.Core.Symbols.{SymbolTable, init}
use nasdaq_order_book.Itch.Decoder.{DecodeResult, decode_one}

-- The counters are `size_t`, and count no more than the bytes of the file.
pub record FileRun {ℓ} (Book : Type ℓ) : Type ℓ where
  pub symtab : SymbolTable
  pub ob : Book
  pub msgs : ℕ
  pub events : ℕ
  pub cur : List ℕ

module _ {ℓ} {Book : Type ℓ} (apply_event : ItchEvent → Book → Book) where
  unfoldable pub apply_decoded : Option ItchEvent → FileRun Book → FileRun Book
  apply_decoded none r = r
  apply_decoded (some e) r = record r { ob = apply_event e r.ob; events = r.events + 1 }

  -- The body of the loop past its test for the end.
  unfoldable pub advance : FileRun Book → FileRun Book
  advance r =
      let (res, symtab') = decode_one r.symtab r.cur in
      apply_decoded res.event
        (record r { symtab = symtab'; msgs = r.msgs + 1; cur = drop res.message_size r.cur })

  unfoldable pub at_end : FileRun Book → Bool
  at_end r = (length r.cur == 0) || ((decode_one r.symtab r.cur).0.message_size == 0)

  unfoldable pub file_loop : ℕ → FileRun Book → FileRun Book
  file_loop zero r = r
  file_loop (suc n) r = let rest = file_loop n (advance r) in if at_end r then r else rest

  unfoldable pub start : Book → List ℕ → FileRun Book
  start ob buffer = record { symtab = init; ob = ob; msgs = 0; events = 0; cur = buffer }

  -- No more rounds than the file has bytes.
  unfoldable pub run_file_mode : Book → List ℕ → FileRun Book
  run_file_mode ob buffer = file_loop (length buffer) (start ob buffer)
