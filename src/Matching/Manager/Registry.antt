-- ===== src/Matching/Manager/Registry.antt =====
-- The two maps of `SymbolManager` agree.
use nasdaq_order_book.Base.{
  ℕ, ◌+◌, ◌<◌, ◌≡◌, ◌↔◌, inl, inr, refl, ap, Bool, Option, none, some, List, [], ◌∷◌, arith, ◌==◌,
  if◌then◌else◌, u16_mod, Option-cases, add64, add32,
}
use nasdaq_order_book.Base.Assoc.{lookup, insert, erase, lookup-insert, lookup-erase}
use nasdaq_order_book.Matching.Manager.{
  SymbolState, SymbolInfo, SymbolManager, init, update_stats, new_info, add_symbol,
  remove_symbol_named, remove_symbol, set_symbol_state, name_of, update_symbol_stats, change_states,
}

-- Two partial maps that are inverse to each other
abbrev pub Inverse : (ℕ → Option ℕ) → (ℕ → Option ℕ) → Type 0
Inverse f g = (a b : ℕ) → (f a ≡ some b) ↔ (g b ≡ some a)

Inverse-insert :
    (f g f' g' : ℕ → Option ℕ) (a b : ℕ)
    → Inverse f g
    → f a ≡ none
    → g b ≡ none
    → ((x : ℕ) → f' x ≡ (if a == x then some b else f x))
    → ((y : ℕ) → g' y ≡ (if b == y then some a else g y))
    → Inverse f' g'
Inverse-insert f g f' g' a b inv fa gb hf hg x y =
    ground (arith, inv x y, inv a y, inv x b, hf x, hg y)

Inverse-erase :
    (f g f' g' : ℕ → Option ℕ) (a b : ℕ)
    → Inverse f g
    → f a ≡ some b
    → ((x : ℕ) → f' x ≡ (if a == x then none else f x))
    → ((y : ℕ) → g' y ≡ (if b == y then none else g y))
    → Inverse f' g'
Inverse-erase f g f' g' a b inv fa hf hg x y =
    ground (arith, inv x y, inv a y, inv x b, inv a b, hf x, hg y)

abbrev pub name_at : List (ℕ × SymbolInfo) → ℕ → Option ℕ
name_at symbols id = name_of (lookup id symbols)

name_at-insert :
    (id : ℕ) (info : SymbolInfo) (symbols : List (ℕ × SymbolInfo)) (i : ℕ)
    → name_at (insert id info symbols) i
      ≡ (if id == i then some info.symbol_name else name_at symbols i)
name_at-insert id info symbols i = ground (arith, lookup-insert id i info symbols)

name_at-erase :
    (id : ℕ) (symbols : List (ℕ × SymbolInfo)) (i : ℕ)
    → name_at (erase id symbols) i ≡ (if id == i then none else name_at symbols i)
name_at-erase id symbols i = ground (arith, lookup-erase id i symbols)

-- Names and identifiers lead to each other, and identifiers lie below the next one.
pub record IsManager (m : SymbolManager) : Type 0 where
  pub inverse : Inverse (λ name. lookup name m.name_to_id) (name_at m.symbols)
  pub below : (id name : ℕ) → name_at m.symbols id ≡ some name → id < m.next_symbol_id

pub init-IsManager : IsManager init
unfolding init lookup
init-IsManager = record {
  inverse = λ name id. ground arith;
  below = λ id name e. absurd (ground arith);
}

module _ (m : SymbolManager) (inv : IsManager m) where
  no_name : name_at m.symbols m.next_symbol_id ≡ none
  no_name = elim (Option-cases (name_at m.symbols m.next_symbol_id)) [
    | inl none_there ↦ none_there
    | inr (name, there) ↦ absurd (omega (arith, inv.below m.next_symbol_id name there))
  ]

  pub add_symbol-IsManager :
      (name tick_size min_price max_price : ℕ)
      → m.next_symbol_id + 1 < u16_mod
      → IsManager (add_symbol m name tick_size min_price max_price).1
  unfolding add_symbol update_stats new_info
  add_symbol-IsManager name tick_size min_price max_price room =
      let id = m.next_symbol_id in
      let info = new_info id name tick_size min_price max_price in
      elim (Option-cases (lookup name m.name_to_id)) [
        | inr (id, there) ↦ rw (there, add_symbol) inv
        | inl fresh ↦
            rw (fresh, add_symbol)
              (record {
                inverse =
                    Inverse-insert (λ n. lookup n m.name_to_id) (name_at m.symbols) _ _ name id
                      inv.inverse fresh no_name (λ n. lookup-insert name n id m.name_to_id)
                      (name_at-insert id info m.symbols);
                below = λ i n e. ground (arith, inv.below i n, name_at-insert id info m.symbols i);
              })
      ]

  erased-IsManager :
      (name id : ℕ)
      → lookup name m.name_to_id ≡ some id
      → IsManager (
          update_stats
            (record m { symbols = erase id m.symbols; name_to_id = erase name m.name_to_id }))
  unfolding update_stats
  erased-IsManager name id there = record {
    inverse =
        Inverse-erase (λ n. lookup n m.name_to_id) (name_at m.symbols) _ _ name id inv.inverse there
          (λ n. lookup-erase name n m.name_to_id) (name_at-erase id m.symbols);
    below = λ i n e. inv.below i n (ground (arith, name_at-erase id m.symbols i));
  }

  pub remove_symbol-IsManager : (id : ℕ) → IsManager (remove_symbol m id).1
  unfolding remove_symbol
  remove_symbol-IsManager id = elim (Option-cases (lookup id m.symbols)) [
    | inl miss ↦ rw (miss, remove_symbol) inv
    | inr (info, there) ↦
        rw (there, remove_symbol)
          (erased-IsManager info.symbol_name id
            ((inv.inverse info.symbol_name id).1 (ap name_of there)))
  ]

  pub remove_symbol_named-IsManager : (name : ℕ) → IsManager (remove_symbol_named m name).1
  unfolding remove_symbol_named
  remove_symbol_named-IsManager name = elim (Option-cases (lookup name m.name_to_id)) [
    | inl miss ↦ rw (miss, remove_symbol_named) inv
    | inr (id, there) ↦ rw (there, remove_symbol_named) (erased-IsManager name id there)
  ]

  -- A change that keeps every name keeps the invariant.
  pub renamed-IsManager :
      (m' : SymbolManager)
      → m'.name_to_id ≡ m.name_to_id
      → m'.next_symbol_id ≡ m.next_symbol_id
      → ((i : ℕ) → name_at m'.symbols i ≡ name_at m.symbols i)
      → IsManager m'
  renamed-IsManager m' names next same = record {
    inverse = λ n i. ground (arith, inv.inverse n i, same i, ap (lookup n) names);
    below = λ i n e. ground (arith, inv.below i n, same i);
  }

  pub set_symbol_state-IsManager :
      (id : ℕ) (state : SymbolState) → IsManager (set_symbol_state m id state).1
  unfolding set_symbol_state update_stats
  set_symbol_state-IsManager id state = elim (Option-cases (lookup id m.symbols)) [
    | inl miss ↦ rw (miss, set_symbol_state) inv
    | inr (info, there) ↦
        rw (there, set_symbol_state)
          (renamed-IsManager _ refl refl (λ i.
            ground (arith, there, name_at-insert id (record info { state = state }) m.symbols i)))
  ]

  pub update_symbol_stats-IsManager :
      (id volume : ℕ) (is_trade : Bool) → IsManager (update_symbol_stats m id volume is_trade)
  unfolding update_symbol_stats
  update_symbol_stats-IsManager id volume is_trade = elim (Option-cases (lookup id m.symbols)) [
    | inl miss ↦ rw (miss, update_symbol_stats) inv
    | inr (info, there) ↦
        let info' = record info {
          total_volume = add64 info.total_volume volume;
          total_trades = if is_trade then add32 info.total_trades 1 else info.total_trades;
        } in
        rw (there, update_symbol_stats)
          (renamed-IsManager _ refl refl
            (λ i. ground (arith, there, name_at-insert id info' m.symbols i)))
  ]

pub name_at-change_states :
    (f : SymbolState → SymbolState) (symbols : List (ℕ × SymbolInfo)) (i : ℕ)
    → name_at (change_states f symbols) i ≡ name_at symbols i
unfolding change_states lookup
name_at-change_states f [] i = refl
name_at-change_states f ((id, info) ∷ m) i = ground (arith, name_at-change_states f m i)
