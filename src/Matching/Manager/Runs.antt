-- ===== src/Matching/Manager/Runs.antt =====
-- Sequences of calls of a `SymbolManager`.
use nasdaq_order_book.Base.{
  ℕ, ◌+◌, ◌≤◌, ◌<◌, ◌≡◌, ◌↔◌, inl, inr, refl, Bool, some, List, [], ◌∷◌, arith, length, u16_mod,
  Option-cases,
}
use nasdaq_order_book.Matching.Manager.{
  SymbolState, SymbolManager, init, update_stats, add_symbol, remove_symbol_named, remove_symbol,
  set_symbol_state, set_symbol_state_named, get_symbol_id, get_symbol_name, update_symbol_stats,
  on_open, on_close, change_states, open_market, close_market,
}
use nasdaq_order_book.Matching.Manager.Registry.{
  IsManager, init-IsManager, add_symbol-IsManager, remove_symbol-IsManager,
  remove_symbol_named-IsManager, renamed-IsManager, set_symbol_state-IsManager,
  update_symbol_stats-IsManager, name_at-change_states,
}

-- The calls that change a manager.
pub data Call : Type 0 where
  adds : ℕ → ℕ → ℕ → ℕ → Call
  removes removes_named : ℕ → Call
  sets : ℕ → SymbolState → Call
  sets_named : ℕ → SymbolState → Call
  trades : ℕ → ℕ → Bool → Call
  opens closes : Call

unfoldable pub step : Call → SymbolManager → SymbolManager
step (adds name tick_size min_price max_price) m =
    (add_symbol m name tick_size min_price max_price).1
step (removes id) m = (remove_symbol m id).1
step (removes_named name) m = (remove_symbol_named m name).1
step (sets id state) m = (set_symbol_state m id state).1
step (sets_named name state) m = (set_symbol_state_named m name state).1
step (trades id volume is_trade) m = update_symbol_stats m id volume is_trade
step opens m = open_market m
step closes m = close_market m

unfoldable pub run : List Call → SymbolManager → SymbolManager
run [] m = m
run (c ∷ cs) m = run cs (step c m)

set_symbol_state_named-IsManager :
    (m : SymbolManager)
    → IsManager m
    → (name : ℕ) (state : SymbolState) → IsManager (set_symbol_state_named m name state).1
unfolding set_symbol_state_named
set_symbol_state_named-IsManager m inv name state = elim (Option-cases (get_symbol_id m name)) [
  | inl miss ↦ rw (miss, set_symbol_state_named) inv
  | inr (id, there) ↦ rw (there, set_symbol_state_named) (set_symbol_state-IsManager m inv id state)
]

changed-IsManager :
    (m : SymbolManager)
    → IsManager m
    → (f : SymbolState → SymbolState)
    → IsManager (update_stats (record m { symbols = change_states f m.symbols }))
unfolding update_stats
changed-IsManager m inv f = renamed-IsManager m inv _ refl refl (name_at-change_states f m.symbols)

step-IsManager :
    (c : Call) (m : SymbolManager)
    → m.next_symbol_id + 1 < u16_mod
    → IsManager m
    → IsManager (step c m)
unfolding step open_market close_market
step-IsManager (adds name tick_size min_price max_price) m room inv =
    add_symbol-IsManager m inv name tick_size min_price max_price room
step-IsManager (removes id) m room inv = remove_symbol-IsManager m inv id
step-IsManager (removes_named name) m room inv = remove_symbol_named-IsManager m inv name
step-IsManager (sets id state) m room inv = set_symbol_state-IsManager m inv id state
step-IsManager (sets_named name state) m room inv =
    set_symbol_state_named-IsManager m inv name state
step-IsManager (trades id volume is_trade) m room inv =
    update_symbol_stats-IsManager m inv id volume is_trade
step-IsManager opens m room inv = changed-IsManager m inv on_open
step-IsManager closes m room inv = changed-IsManager m inv on_close

step-next :
    (c : Call) (m : SymbolManager)
    → m.next_symbol_id + 1 < u16_mod
    → (step c m).next_symbol_id ≤ m.next_symbol_id + 1
unfolding step open_market close_market update_stats add_symbol remove_symbol remove_symbol_named
    set_symbol_state set_symbol_state_named update_symbol_stats
step-next c m room = ground arith

run-IsManager :
    (cs : List Call) (m : SymbolManager)
    → m.next_symbol_id + length cs < u16_mod
    → IsManager m
    → IsManager (run cs m)
unfolding run
run-IsManager [] m room inv = inv
run-IsManager (c ∷ cs) m room inv =
    run-IsManager cs (step c m) (omega (arith, step-next c m (omega arith)))
      (step-IsManager c m (omega arith) inv)

-- After any sequence of calls that is too short to use up the identifiers, names and identifiers are
-- a bijection: `get_symbol_id` leads from a name to an identifier exactly if `get_symbol_name` leads
-- back.
pub get_symbol_id-run :
    (cs : List Call) (name id : ℕ)
    → length cs + 1 < u16_mod
    → (get_symbol_id (run cs init) name ≡ some id) ↔ (get_symbol_name (run cs init) id ≡ some name)
unfolding get_symbol_id get_symbol_name init
get_symbol_id-run cs name id room =
    (run-IsManager cs init (omega arith) init-IsManager).inverse name id
