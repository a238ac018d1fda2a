-- ===== src/Core/Symbols/Interned.antt =====
-- The identifiers that `get_or_intern` hands out.
use nasdaq_order_book.Base.{
  ℕ, ◌+◌, ◌<◌, ◌≤◌, ◌≡◌, ◌↔◌, inl, inr, refl, sym, ap, ◌∙◌, true, none, some, List, [], ◌∷◌, ◌++◌,
  if◌then◌else◌, length, take, u16_mod, arith, All, ◌%◌, Bool-cases, Option-cases,
}
use nasdaq_order_book.Core.Symbols.{
  SymbolTable, trim, push_trimmed, same_text, key, find_in, find, intern, get_or_intern, intern_all,
}

same_text_refl : (s : List ℕ) → same_text s s ≡ true
unfolding same_text
same_text_refl [] = refl
same_text_refl (c ∷ s) = ground (arith, same_text_refl s)

same_text-eq : (s t : List ℕ) → same_text s t ≡ true → s ≡ t
unfolding same_text
same_text-eq [] [] h = refl
same_text-eq [] (d ∷ t) h = absurd (ground arith)
same_text-eq (c ∷ s) [] h = absurd (ground arith)
same_text-eq (c ∷ s) (d ∷ t) h =
    let head : c ≡ d = ground arith in let tail = same_text-eq s t (ground arith) in cc (head, tail)

-- The trimmed text is a prefix of the eight bytes.
take-push_trimmed :
    (c : ℕ) (s r : List ℕ) (t : List ℕ)
    → take (length r) t ≡ r
    → take (length (push_trimmed c r)) (c ∷ t) ≡ push_trimmed c r
unfolding push_trimmed
take-push_trimmed c s [] t h = ground arith
take-push_trimmed c s (d ∷ r) t h = ap (λ x. c ∷ x) h

take-trim : (s r : List ℕ) → take (length (trim s)) (s ++ r) ≡ trim s
unfolding trim
take-trim [] r = refl
take-trim (c ∷ s) r = take-push_trimmed c s (trim s) (s ++ r) (take-trim s r)

-- The identifiers in use lie below the next one.
pub record IsSymbols (t : SymbolTable) : Type 0 where
  pub used : All (λ id. id < t.next_id) t.interned

find_in-some :
    (t : SymbolTable) (n : ℕ) (ids : List ℕ) (sv : List ℕ) (i : ℕ)
    → All (λ id. id < n) ids
    → find_in t ids sv ≡ some i
    → (i < n) × (key t i ≡ sv)
unfolding find_in
find_in-some t n [] sv i h e = absurd (ground arith)
find_in-some t n (id ∷ ids) sv i h e = elim (Bool-cases (same_text (key t id) sv)) [
  | inl here ↦ ground (arith, h.0, same_text-eq (key t id) sv here)
  | inr not_here ↦ find_in-some t n ids sv i h.1 (ground arith)
]

find-key : (t : SymbolTable) (sv : List ℕ) (i : ℕ) → IsSymbols t → find t sv ≡ some i → key t i ≡ sv
unfolding find
find-key t sv i valid e = (find_in-some t t.next_id t.interned sv i valid.used e).1

key-intern : (t : SymbolTable) (s : List ℕ) (i : ℕ) → i < t.next_id → key (intern t s).1 i ≡ key t i
unfolding key intern
key-intern t s i lt = ground arith

find_in-intern :
    (t : SymbolTable) (s : List ℕ) (ids : List ℕ) (sv : List ℕ)
    → All (λ id. id < t.next_id) ids
    → find_in (intern t s).1 ids sv ≡ find_in t ids sv
unfolding find_in
find_in-intern t s [] sv h = refl
find_in-intern t s (id ∷ ids) sv h = cc (key-intern t s id h.0, find_in-intern t s ids sv h.1)

key-intern_new : (t : SymbolTable) (s : List ℕ) → key (intern t s).1 t.next_id ≡ trim s
unfolding key intern
key-intern_new t s = ground (arith, take-trim s (0 ∷ []))

All-weaken : (n m : ℕ) (ids : List ℕ) → n ≤ m → All (λ id. id < n) ids → All (λ id. id < m) ids
All-weaken n m [] le h = tt
All-weaken n m (id ∷ ids) le h = (omega (arith, h.0), All-weaken n m ids le h.1)

module _ (t : SymbolTable) (valid : IsSymbols t) (s : List ℕ) where
  -- What was there is found as before, and a new symbol under its identifier.
  find-intern :
      (sv : List ℕ)
      → find (intern t s).1 sv ≡ (if same_text (trim s) sv then some t.next_id else find t sv)
  unfolding find find_in intern
  find-intern sv =
      ap (λ k. if same_text k sv then some t.next_id else find_in (intern t s).1 t.interned sv)
        (key-intern_new t s)
      ∙ ap (λ r. if same_text (trim s) sv then some t.next_id else r)
          (find_in-intern t s t.interned sv valid.used)

  intern-IsSymbols : t.next_id + 1 < u16_mod → IsSymbols (intern t s).1
  unfolding intern
  intern-IsSymbols room = record {
    used = (
      omega arith,
      All-weaken t.next_id ((t.next_id + 1) % u16_mod) t.interned (omega arith) valid.used,
    );
  }

  intern-found : find (intern t s).1 (trim s) ≡ some (intern t s).0
  unfolding intern
  intern-found = ground (arith, find-intern (trim s), same_text_refl (trim s))

  intern-next : (intern t s).1.next_id ≤ t.next_id + 1
  unfolding intern
  intern-next = omega arith

  intern-kept :
      find t (trim s) ≡ none
      → (sv : List ℕ) (j : ℕ) → find t sv ≡ some j
      → find (intern t s).1 sv ≡ some j
  intern-kept fresh sv j e = elim (Bool-cases (same_text (trim s) sv)) [
    | inl same ↦ absurd (ground (arith, ap (find t) (same_text-eq (trim s) sv same)))
    | inr other ↦ ground (arith, find-intern sv)
  ]

  -- What `get_or_intern` leaves: a valid table, at most one more identifier, in which the symbol is
  -- found under the answer, and every text that was found before is found as before.
  pub record Interning (r : ℕ × SymbolTable) : Type 0 where
    pub valid_after : IsSymbols r.1
    pub next : r.1.next_id ≤ t.next_id + 1
    pub found : find r.1 (trim s) ≡ some r.0
    pub kept : (sv : List ℕ) (i : ℕ) → find t sv ≡ some i → find r.1 sv ≡ some i

  pub get_or_intern-Interning : t.next_id + 1 < u16_mod → Interning (get_or_intern t s)
  unfolding get_or_intern
  get_or_intern-Interning room = elim (Option-cases (find t (trim s))) [
    | inr (i, known) ↦
        rw (known, get_or_intern)
          (record { valid_after = valid; next = omega arith; found = known; kept = λ sv j e. e })
    | inl fresh ↦
        rw (fresh, get_or_intern)
          (record {
            valid_after = intern-IsSymbols room;
            next = intern-next;
            found = intern-found;
            kept = intern-kept fresh;
          })
  ]

intern_all-kept :
    (ss : List (List ℕ)) (t : SymbolTable)
    → IsSymbols t
    → t.next_id + length ss < u16_mod
    → (IsSymbols (intern_all ss t))
      × ((intern_all ss t).next_id ≤ t.next_id + length ss)
      × ((sv : List ℕ) (i : ℕ) → find t sv ≡ some i → find (intern_all ss t) sv ≡ some i)
unfolding intern_all
intern_all-kept [] t valid room = (valid, omega arith, λ sv i e. e)
intern_all-kept (s ∷ ss) t valid room =
    let step = get_or_intern-Interning t valid s (omega arith) in
    let (later, bound, kept) =
      intern_all-kept ss (get_or_intern t s).1 step.valid_after (omega (arith, step.next)) in
    (later, omega (arith, bound, step.next), λ sv i e. kept sv i (step.kept sv i e))

-- While the identifiers last, a symbol keeps the identifier it was given whatever is interned
-- after it, and another symbol is given the same one exactly if the two texts agree up to spaces at
-- their ends.
pub get_or_intern-stable :
    (t : SymbolTable) (s s' : List ℕ) (between : List (List ℕ))
    → IsSymbols t
    → t.next_id + 2 + length between < u16_mod
    → let (i, t₁) = get_or_intern t s in
      (i ≡ (get_or_intern (intern_all between t₁) s').0) ↔ (trim s ≡ trim s')
get_or_intern-stable t s s' between valid room =
    let first = get_or_intern-Interning t valid s (omega arith) in
    let (valid₂, bound, kept) =
      intern_all-kept between (get_or_intern t s).1 first.valid_after (omega (arith, first.next)) in
    let t₂ = intern_all between (get_or_intern t s).1 in
    let second = get_or_intern-Interning t₂ valid₂ s' (omega (arith, bound, first.next)) in
    let t₃ = (get_or_intern t₂ s').1 in
    let i = (get_or_intern t s).0 in
    let still : find t₃ (trim s) ≡ some i = second.kept (trim s) i (kept (trim s) i first.found) in
    (
      λ same.
          sym (find-key t₃ (trim s) i second.valid_after still)
          ∙ ap (key t₃) same
          ∙ find-key t₃ (trim s') (get_or_intern t₂ s').0 second.valid_after second.found,
      λ same. ground (arith, still, second.found, ap (find t₃) same),
    )
