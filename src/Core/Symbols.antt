-- ===== src/Core/Symbols.antt =====
-- `SymbolTable` of include/core/symbol_table.hpp. The key of an entry is a view into `storage_`.
pub mod Interned
use nasdaq_order_book.Base.{
  ℕ, ◌+◌, ◌%◌, Bool, true, false, ◌&&◌, Option, none, some, List, [], ◌∷◌, ◌++◌, ◌==◌,
  if◌then◌else◌, update, length, take, u16_mod,
}

-- `map_` maps a view into the slot of an identifier to that identifier, so an entry is the
-- identifier, in `interned`, and the length of its view, in `sizes`.
pub record SymbolTable : Type 0 where
  pub storage : ℕ → List ℕ
  pub sizes : ℕ → ℕ
  pub interned : List ℕ
  pub next_id : ℕ

unfoldable pub init : SymbolTable
init = record { storage = λ _. []; sizes = λ _. 0; interned = []; next_id = 1 }

unfoldable pub push_trimmed : ℕ → List ℕ → List ℕ
push_trimmed c [] = if c == b' ' then [] else c ∷ []
push_trimmed c (d ∷ s) = c ∷ d ∷ s

-- The loop that removes spaces from the end.
unfoldable pub trim : List ℕ → List ℕ
trim [] = []
trim (c ∷ s) = push_trimmed c (trim s)

-- Equality of string views
unfoldable pub same_text : List ℕ → List ℕ → Bool
same_text [] [] = true
same_text (c ∷ s) (d ∷ t) = (c == d) && same_text s t
same_text _ _ = false

-- The key of the entry `id`
unfoldable pub key : SymbolTable → ℕ → List ℕ
key t id = take (t.sizes id) (t.storage id)

unfoldable pub find_in : SymbolTable → List ℕ → List ℕ → Option ℕ
find_in t [] sv = none
find_in t (id ∷ ids) sv = if same_text (key t id) sv then some id else find_in t ids sv

unfoldable pub find : SymbolTable → List ℕ → Option ℕ
unfolding find_in
find t sv = find_in t t.interned sv

-- A new identifier takes the next slot. `sym8` are the eight bytes.
unfoldable pub intern : SymbolTable → List ℕ → ℕ × SymbolTable
intern t sym8 = (
  t.next_id,
  record {
    storage = update t.storage t.next_id (sym8 ++ (0 ∷ []));
    sizes = update t.sizes t.next_id (length (trim sym8));
    interned = t.next_id ∷ t.interned;
    next_id = (t.next_id + 1) % u16_mod;
  },
)

unfoldable pub get_or_intern : SymbolTable → List ℕ → ℕ × SymbolTable
get_or_intern t sym8 = elim (find t (trim sym8)) [ some id ↦ (id, t) | none ↦ intern t sym8 ]

-- The text up to the first NUL
unfoldable pub until_nul : List ℕ → List ℕ
until_nul [] = []
until_nul (c ∷ s) = let rest = until_nul s in if c == 0 then [] else c ∷ rest

unfoldable pub view : SymbolTable → ℕ → List ℕ
unfolding until_nul
view t id = if id == 0 then [] else until_nul (t.storage id)

unfoldable pub intern_all : List (List ℕ) → SymbolTable → SymbolTable
intern_all [] t = t
intern_all (sym8 ∷ syms) t = intern_all syms (get_or_intern t sym8).1
