-- ===== src/Matching/Manager.antt =====
-- `SymbolManager` of include/matching/symbol_manager.hpp and src/matching/symbol_manager.cpp. Names
-- of symbols are only compared, and stand here as numbers; the lock is held throughout each call.
pub mod Registry
pub mod Runs
use nasdaq_order_book.Base.{
  ℕ, ◌+◌, ◌*◌, ◌/◌, ◌%◌, Bool, true, false, not, ◌&&◌, ◌||◌, Option, none, some, List, [], ◌∷◌, ltb,
  leb, ◌==◌, if◌then◌else◌, length, u16_mod, u32_mod, add32, add64,
}
use nasdaq_order_book.Base.Assoc.{lookup, insert, erase}

pub data SymbolState : Type 0 where
  inactive pre_open opened halted closed suspended : SymbolState

unfoldable pub same_state : SymbolState → SymbolState → Bool
same_state inactive inactive = true
same_state pre_open pre_open = true
same_state opened opened = true
same_state halted halted = true
same_state closed closed = true
same_state suspended suspended = true
same_state _ _ = false

pub record SymbolInfo : Type 0 where
  pub id : ℕ
  pub symbol_name : ℕ
  pub state : SymbolState
  pub tick_size : ℕ
  pub min_quantity : ℕ
  pub max_quantity : ℕ
  pub lot_size : ℕ
  pub min_price : ℕ
  pub max_price : ℕ
  pub total_volume : ℕ
  pub total_trades : ℕ
  pub active_orders : ℕ

abbrev pub is_trading : SymbolState → Bool
is_trading opened = true
is_trading _ = false

abbrev pub accepts_orders : SymbolState → Bool
accepts_orders pre_open = true
accepts_orders opened = true
accepts_orders _ = false

pub record Stats : Type 0 where
  pub total_symbols : ℕ
  pub active_symbols : ℕ
  pub trading_symbols : ℕ
  pub total_volume : ℕ
  pub total_trades : ℕ

pub record SymbolManager : Type 0 where
  pub name_to_id : List (ℕ × ℕ)
  pub symbols : List (ℕ × SymbolInfo)
  pub next_symbol_id : ℕ
  pub stats : Stats

abbrev pub no_stats : Stats
no_stats = record {
  total_symbols = 0;
  active_symbols = 0;
  trading_symbols = 0;
  total_volume = 0;
  total_trades = 0;
}

unfoldable pub init : SymbolManager
init = record { name_to_id = []; symbols = []; next_symbol_id = 1; stats = no_stats }

-- The loop of `update_stats`
unfoldable pub add_up : List (ℕ × SymbolInfo) → Stats → Stats
add_up [] s = s
add_up ((_, info) ∷ m) s = add_up m (record s {
  active_symbols = if accepts_orders info.state then add32 s.active_symbols 1 else s.active_symbols;
  trading_symbols = if is_trading info.state then add32 s.trading_symbols 1 else s.trading_symbols;
  total_volume = add64 s.total_volume info.total_volume;
  total_trades = add32 s.total_trades info.total_trades;
})

unfoldable pub update_stats : SymbolManager → SymbolManager
update_stats m = record m {
  stats = add_up m.symbols (record no_stats { total_symbols = length m.symbols % u32_mod });
}

-- The defaults of `SymbolInfo` with the arguments of `add_symbol`.
unfoldable pub new_info : ℕ → ℕ → ℕ → ℕ → ℕ → SymbolInfo
new_info id name tick_size min_price max_price = record {
  id = id;
  symbol_name = name;
  state = inactive;
  tick_size = tick_size;
  min_quantity = 1;
  max_quantity = 1000000;
  lot_size = 100;
  min_price = min_price;
  max_price = max_price;
  total_volume = 0;
  total_trades = 0;
  active_orders = 0;
}

unfoldable pub add_symbol : SymbolManager → ℕ → ℕ → ℕ → ℕ → ℕ × SymbolManager
add_symbol m name tick_size min_price max_price = elim (lookup name m.name_to_id) [
  | some id ↦ (id, m)
  | none ↦
      let new_id = m.next_symbol_id in
      (
        new_id,
        update_stats (record m {
          next_symbol_id = (new_id + 1) % u16_mod;
          symbols = insert new_id (new_info new_id name tick_size min_price max_price) m.symbols;
          name_to_id = insert name new_id m.name_to_id;
        }),
      )
]

unfoldable pub remove_symbol_named : SymbolManager → ℕ → Bool × SymbolManager
remove_symbol_named m name = elim (lookup name m.name_to_id) [
  | none ↦ (false, m)
  | some id ↦ (
    true,
    update_stats (record m { symbols = erase id m.symbols; name_to_id = erase name m.name_to_id }),
  )
]

unfoldable pub remove_symbol : SymbolManager → ℕ → Bool × SymbolManager
remove_symbol m id = elim (lookup id m.symbols) [
  | none ↦ (false, m)
  | some info ↦ (
    true,
    update_stats (record m {
      symbols = erase id m.symbols;
      name_to_id = erase info.symbol_name m.name_to_id;
    }),
  )
]

unfoldable pub set_symbol_state : SymbolManager → ℕ → SymbolState → Bool × SymbolManager
set_symbol_state m id state = elim (lookup id m.symbols) [
  | none ↦ (false, m)
  | some info ↦ (
    true,
    update_stats (record m { symbols = insert id (record info { state = state }) m.symbols }),
  )
]

unfoldable pub get_symbol_id : SymbolManager → ℕ → Option ℕ
get_symbol_id m name = lookup name m.name_to_id

unfoldable pub set_symbol_state_named : SymbolManager → ℕ → SymbolState → Bool × SymbolManager
set_symbol_state_named m name state = elim (get_symbol_id m name) [
  | none ↦ (false, m)
  | some id ↦ set_symbol_state m id state
]

unfoldable pub open_trading : SymbolManager → ℕ → Bool × SymbolManager
open_trading m id = set_symbol_state m id opened

unfoldable pub close_trading : SymbolManager → ℕ → Bool × SymbolManager
close_trading m id = set_symbol_state m id closed

unfoldable pub halt_trading : SymbolManager → ℕ → Bool × SymbolManager
halt_trading m id = set_symbol_state m id halted

unfoldable pub resume_trading : SymbolManager → ℕ → Bool × SymbolManager
resume_trading m id = set_symbol_state m id opened

unfoldable pub get_symbol_info : SymbolManager → ℕ → Option SymbolInfo
get_symbol_info m id = lookup id m.symbols

abbrev pub is_some {ℓ} : {A : Type ℓ} → Option A → Bool
is_some none = false
is_some (some _) = true

abbrev pub name_of : Option SymbolInfo → Option ℕ
name_of none = none
name_of (some info) = some info.symbol_name

unfoldable pub get_symbol_name : SymbolManager → ℕ → Option ℕ
get_symbol_name m id = name_of (lookup id m.symbols)

unfoldable pub is_valid_symbol : SymbolManager → ℕ → Bool
is_valid_symbol m id = is_some (lookup id m.symbols)

unfoldable pub get_symbol_info_named : SymbolManager → ℕ → Option SymbolInfo
get_symbol_info_named m name = elim (get_symbol_id m name) [
  | none ↦ none
  | some id ↦ get_symbol_info m id
]

unfoldable pub is_valid_symbol_named : SymbolManager → ℕ → Bool
is_valid_symbol_named m name = is_some (lookup name m.name_to_id)

unfoldable pub get_stats : SymbolManager → Stats
get_stats m = m.stats

-- `info && …`
abbrev pub holds : (SymbolInfo → Bool) → Option SymbolInfo → Bool
holds test none = false
holds test (some info) = test info

unfoldable pub can_trade_symbol : SymbolManager → ℕ → Bool
can_trade_symbol m id = holds (λ info. accepts_orders info.state) (get_symbol_info m id)

-- A tick size of 0 would divide by zero in the code.
unfoldable pub validate_price : SymbolManager → ℕ → ℕ → Bool
validate_price m id price =
    holds
      (λ info.
        leb info.min_price price && (leb price info.max_price && (price % info.tick_size == 0)))
      (get_symbol_info m id)

unfoldable pub validate_quantity : SymbolManager → ℕ → ℕ → Bool
validate_quantity m id quantity =
    holds (λ info. leb info.min_quantity quantity && leb quantity info.max_quantity)
      (get_symbol_info m id)

-- A tick or a lot of 0 is a division by zero, undefined in C++; the quotient is taken to be 0 here.
unfoldable pub round_to_tick : SymbolManager → ℕ → ℕ → ℕ
round_to_tick m id price = elim (get_symbol_info m id) [
  | none ↦ price
  | some info ↦ price / info.tick_size * info.tick_size
]

unfoldable pub round_to_lot : SymbolManager → ℕ → ℕ → ℕ
round_to_lot m id quantity = elim (get_symbol_info m id) [
  | none ↦ quantity
  | some info ↦ quantity / info.lot_size * info.lot_size
]

unfoldable pub infos : List (ℕ × SymbolInfo) → List SymbolInfo
infos [] = []
infos ((_, info) ∷ m) = info ∷ infos m

unfoldable pub get_all_symbols : SymbolManager → List SymbolInfo
unfolding infos
get_all_symbols m = infos m.symbols

unfoldable pub in_state : SymbolState → List (ℕ × SymbolInfo) → List SymbolInfo
in_state state [] = []
in_state state ((_, info) ∷ m) =
    let rest = in_state state m in if same_state info.state state then info ∷ rest else rest

unfoldable pub get_symbols_by_state : SymbolManager → SymbolState → List SymbolInfo
unfolding in_state
get_symbols_by_state m state = in_state state m.symbols

unfoldable pub get_trading_symbols : SymbolManager → List SymbolInfo
get_trading_symbols m = get_symbols_by_state m opened

unfoldable pub update_symbol_stats : SymbolManager → ℕ → ℕ → Bool → SymbolManager
update_symbol_stats m id volume is_trade = elim (lookup id m.symbols) [
  | none ↦ m
  | some info ↦ record m {
    symbols =
        insert id
          (record info {
            total_volume = add64 info.total_volume volume;
            total_trades = if is_trade then add32 info.total_trades 1 else info.total_trades;
          })
          m.symbols;
  }
]

abbrev pub on_open : SymbolState → SymbolState
on_open pre_open = opened
on_open s = s

abbrev pub on_close : SymbolState → SymbolState
on_close opened = closed
on_close pre_open = closed
on_close s = s

-- The loops over all symbols of `open_market` and `close_market`
unfoldable pub change_states :
    (SymbolState → SymbolState) → List (ℕ × SymbolInfo) → List (ℕ × SymbolInfo)
change_states f [] = []
change_states f ((id, info) ∷ m) = (id, record info { state = f info.state }) ∷ change_states f m

unfoldable pub open_market : SymbolManager → SymbolManager
open_market m = update_stats (record m { symbols = change_states on_open m.symbols })

unfoldable pub close_market : SymbolManager → SymbolManager
close_market m = update_stats (record m { symbols = change_states on_close m.symbols })

unfoldable pub is_market_open : SymbolManager → Bool
is_market_open m = not (length (get_trading_symbols m) == 0)

pub record SymbolConfig : Type 0 where
  pub name : ℕ
  pub tick_size : ℕ
  pub min_price : ℕ
  pub max_price : ℕ
  pub initial_state : SymbolState

unfoldable pub load_symbols : List SymbolConfig → SymbolManager → ℕ × SymbolManager
load_symbols [] m = (0, m)
load_symbols (c ∷ cs) m =
    let (id, m₁) = add_symbol m c.name c.tick_size c.min_price c.max_price in
    let m₂ = (set_symbol_state m₁ id c.initial_state).1 in
    let (loaded, m₃) = load_symbols cs (if ltb 0 id then m₂ else m₁) in
    (if ltb 0 id then loaded + 1 else loaded, m₃)

unfoldable pub configs_of : List SymbolInfo → List SymbolConfig
configs_of [] = []
configs_of (info ∷ more) =
    record {
      name = info.symbol_name;
      tick_size = info.tick_size;
      min_price = info.min_price;
      max_price = info.max_price;
      initial_state = info.state;
    }
    ∷ configs_of more

unfoldable pub export_symbol_configs : SymbolManager → List SymbolConfig
unfolding configs_of
export_symbol_configs m = configs_of (get_all_symbols m)
