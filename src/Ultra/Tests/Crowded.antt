-- ===== src/Ultra/Tests/Crowded.antt =====
-- A hash table with every slot taken but the first: the theorems on lookups, and an eviction.
use nasdaq_order_book.Base.{
  ℕ, ◌+◌, ◌*◌, ◌%◌, ◌^◌, ◌<◌, ◌≡◌, ◌≢◌, ◌∙◌, sym, ap, refl, inl, inr, none, some, arith, u64_mod,
}
use nasdaq_order_book.Ultra.Table.{
  UltraTable, ultra_hash, ultra_hash_size, probe, ultra_find, ultra_insert, ultra_remove, tombstone,
  new,
}
use nasdaq_order_book.Ultra.Table.Valid.{IsLive, IsTable, key}
use nasdaq_order_book.Ultra.Table.Insert.{HasRoom}
use nasdaq_order_book.Ultra.Table.Lookup.{
  new-IsTable, insert-IsTable, find-insert, find-remove, insert_evicts,
}

-- The multiplier of the hash times this number is 1 modulo 2 ^ 64, so this identifier hashes to `s`.
abbrev home_id : ℕ → ℕ
home_id s = s * 2 ^ 32 * 0xf1de_83e1_9937_733d % u64_mod

hash-home_id : (s : ℕ) → s < ultra_hash_size → ultra_hash (home_id s) ≡ s
unfolding ultra_hash
hash-home_id s h = omega arith

abbrev crowded : UltraTable
crowded s = record { order_id = home_id s; order = some s }

abbrev newcomer : ℕ
newcomer = (2 ^ 32 + 1) * 0xf1de_83e1_9937_733d % u64_mod

home_id-injective :
    (s s' : ℕ) → s < ultra_hash_size → s' < ultra_hash_size → home_id s ≡ home_id s' → s ≡ s'
home_id-injective s s' h h' e = sym (hash-home_id s h) ∙ ap ultra_hash e ∙ hash-home_id s' h'

crowded-IsTable : IsTable crowded
unfolding probe
crowded-IsTable = record {
  unique = λ s s' q q' live e. home_id-injective s s' q q' e;
  placed = λ s q live. record {
    at = 0;
    within = omega arith;
    slot = rw (hash-home_id s q) (omega arith);
    path = λ i h. absurd (omega arith);
  };
}

newcomer-hash : ultra_hash newcomer ≡ 1
unfolding ultra_hash
newcomer-hash = refl

not_home : (s k : ℕ) → s < ultra_hash_size → ultra_hash k ≢ s → home_id s ≢ k
not_home s k h ne e = ne (sym (ap ultra_hash e) ∙ hash-home_id s h)

newcomer_no_room : ¬ HasRoom crowded newcomer
unfolding ultra_hash probe
newcomer_no_room room = elim room.free [
  | inl empty ↦
      not_home ((1 + room.at) % ultra_hash_size) 0 (omega arith) (omega (arith, room.within)) empty
  | inr (inl grave) ↦
      not_home ((1 + room.at) % ultra_hash_size) tombstone (omega arith)
        (omega (arith, room.within)) grave
  | inr (inr own) ↦ omega (arith, room.within, own)
]

newcomer-IsLive : IsLive newcomer
newcomer-IsLive = (omega arith, omega arith)

victim-here : key crowded (probe (ultra_hash newcomer) 0) ≡ home_id 1
unfolding ultra_hash probe
victim-here = refl

insert_evicts_example : ultra_find (ultra_insert crowded newcomer (some 5)) (home_id 1) ≡ none
insert_evicts_example =
    insert_evicts crowded newcomer (some 5) crowded-IsTable newcomer-IsLive (home_id 1)
      newcomer_no_room (omega arith, omega arith) victim-here

find-remove_example : ultra_find (ultra_remove crowded (home_id 1)) (home_id 2) ≡ some 2
unfolding ultra_find ultra_hash probe
find-remove_example =
    find-remove crowded (home_id 1) crowded-IsTable (omega arith, omega arith) (home_id 2)
      (omega arith, omega arith)

new-HasRoom : HasRoom new 7
new-HasRoom = record { at = 0; within = omega arith; free = inl refl }

find-insert_example : ultra_find (ultra_insert new 7 (some 3)) 7 ≡ some 3
find-insert_example =
    find-insert new 7 (some 3) new-IsTable (omega arith, omega arith) 7 new-HasRoom
      (omega arith, omega arith)

insert-IsTable_example : IsTable (ultra_insert crowded newcomer (some 5))
insert-IsTable_example = insert-IsTable crowded newcomer (some 5) crowded-IsTable newcomer-IsLive
