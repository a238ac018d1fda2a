-- ===== src/FileMode/Tests.antt =====
-- A file of three messages, read into an `UltraOrderBook`.
use nasdaq_order_book.Base.{◌≡◌, ◌↔◌, true, none, some, List, [], ◌∷◌, arith, All}
use nasdaq_order_book.Core.Event.{delete}
use nasdaq_order_book.Core.Symbols.{SymbolTable, init, trim, get_or_intern, intern_all}
use nasdaq_order_book.Core.Symbols.Interned.{IsSymbols, get_or_intern-stable}
use nasdaq_order_book.Itch.Decoder.{decode_one}
use nasdaq_order_book.Itch.Decoder.Roundtrip.{
  Stamp, Symbol, put_symbol, Directory, Message, lists, adds, deletes, put_message, IsMessage,
  decode_one-put_message,
}
use nasdaq_order_book.Ultra.Book.{UltraBook, new}
use nasdaq_order_book.Ultra.Apply.{apply}
use nasdaq_order_book.FileMode.{at_end, start, run_file_mode}
use nasdaq_order_book.FileMode.Ends.{run_file_mode-ends}
use nasdaq_order_book.FileMode.Feed.{put_all, events_of, HasRun, run_file_mode-HasRun}

abbrev stamp : Stamp
stamp = record { b₁ = 0; b₂ = 1; b₃ = 0; b₄ = 2; b₅ = 0; b₆ = 0; b₇ = 0; b₈ = 0; b₉ = 0; b₁₀ = 9 }

abbrev aapl : Symbol
aapl = record {
  s₁ = b'A';
  s₂ = b'A';
  s₃ = b'P';
  s₄ = b'L';
  s₅ = b' ';
  s₆ = b' ';
  s₇ = b' ';
  s₈ = b' ';
}

abbrev directory : Directory
directory = record {
  market_category = b'Q';
  financial_status = b'N';
  round_lot_size = 100;
  round_lots_only = b'N';
  classification = b'C';
  sub_type₁ = b'Z';
  sub_type₂ = b' ';
  authenticity = b'P';
  short_sale_threshold = b'N';
  ipo_flag = b'N';
  luld_tier = b'1';
  etp_flag = b'N';
  etp_leverage = 0;
  inverse = b'N';
}

abbrev messages : List (Stamp × Message)
messages =
    (stamp, lists aapl directory)
    ∷ (stamp, adds 300 b'B' 100 aapl 50000)
    ∷ (stamp, deletes 300)
    ∷ []

messages-valid : All (λ hm. IsMessage hm.1) messages
messages-valid = (tt, ((omega arith, omega arith, omega arith), (omega arith, tt)))

abbrev book : UltraBook
book = new (λ _. record { id_and_side = 0; quantity = 0; price = 0; next = none }) 1000

tail_undecodable : (t : SymbolTable) → (decode_one t (b'Z' ∷ 0 ∷ [])).0.message_size ≡ 0
unfolding decode_one
tail_undecodable t = ground arith

run_file_mode-HasRun_example :
    HasRun apply
      (b'Z' ∷ 0 ∷ [])
      3
      (events_of init messages)
      (start apply book (put_all messages (b'Z' ∷ 0 ∷ [])))
      (run_file_mode apply book (put_all messages (b'Z' ∷ 0 ∷ [])))
run_file_mode-HasRun_example =
    run_file_mode-HasRun apply (b'Z' ∷ 0 ∷ []) tail_undecodable book messages messages-valid

run_file_mode-ends_example : at_end apply (run_file_mode apply book (b'D' ∷ 0 ∷ 0 ∷ [])) ≡ true
run_file_mode-ends_example = run_file_mode-ends apply book (b'D' ∷ 0 ∷ 0 ∷ [])

decode_one-put_message_example :
    decode_one init (put_message stamp (deletes 300) (7 ∷ []))
    ≡ (record { event = some (delete 300); message_size = 19 }, init)
decode_one-put_message_example =
    decode_one-put_message stamp init (deletes 300) (7 ∷ []) (omega arith)

init-IsSymbols : IsSymbols init
unfolding init
init-IsSymbols = record { used = tt }

get_or_intern-stable_example :
    let (i, t₁) = get_or_intern init (put_symbol aapl []) in
    (i ≡ (get_or_intern (intern_all [] t₁) (b'A' ∷ b'A' ∷ [])).0)
    ↔ (trim (put_symbol aapl []) ≡ trim (b'A' ∷ b'A' ∷ []))
unfolding init
get_or_intern-stable_example =
    get_or_intern-stable init (put_symbol aapl []) (b'A' ∷ b'A' ∷ []) [] init-IsSymbols
      (omega arith)
