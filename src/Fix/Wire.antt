-- ===== src/Fix/Wire.antt =====
-- Fields on the wire, and that the loop of `FixParser::parse` reads them back.
use nasdaq_order_book.Base.{
  ℕ, suc, ◌<◌, ◌≡◌, ◌⊎◌, refl, ◌∙◌, ap, inl, inr, true, false, some, List, [], ◌∷◌, ◌++◌, ◌==◌, ltb,
  arith, All, All-append,
}
use mathlib.Core.List.{append_assoc}
use nasdaq_order_book.Fix.Text.{Text, int_limit, to_string, unsigned_to_string}
use nasdaq_order_book.Fix.Numbers.{IsDigit, decimal-IsDigit, stoi-to_string}
use nasdaq_order_book.Fix.Message.{soh, FixMessage, add_field, written}
use nasdaq_order_book.Fix.Parser.{
  onto_first, split_fields, onto_tag, split_at_equals, add_parsed, add_split, parse_field,
  parse_loop,
}

abbrev pub Fields : Type 0
Fields = List (ℕ × Text)

-- The field's tag is an `int` that is not negative, and its value has no separator.
abbrev pub IsField : ℕ × Text → Type 0
IsField f = (f.0 < int_limit) × All (λ c. (c == soh) ≡ false) f.1

-- The fields on the wire
unfoldable pub encode : Fields → Text
encode [] = []
encode ((tag, value) ∷ fs) = written tag value ++ encode fs

-- The message with these fields added one after the other
unfoldable pub add_all : FixMessage → Fields → FixMessage
add_all m [] = m
add_all m ((tag, value) ∷ fs) = add_all (add_field m (record { tag = tag; value = value })) fs

-- A text of digits meets neither separator.
pub digits-All :
    (c : ℕ) (s : Text) → (c < b'0') ⊎ (b'9' < c) → All IsDigit s → All (λ d. (d == c) ≡ false) s
digits-All c [] out h = tt
digits-All c (d ∷ s) out h = (ground (arith, out, h), digits-All c s out h.1)

to_string-IsDigit : (n : ℕ) → n < int_limit → All IsDigit (to_string n)
unfolding to_string unsigned_to_string
to_string-IsDigit n fits =
    let short : ltb n int_limit ≡ true = ground (arith, fits) in
    rw (short) (decimal-IsDigit (suc n) n [] tt)

-- The text up to a separator is one field.
split_fields-soh :
    (s rest : Text)
    → All (λ c. (c == soh) ≡ false) s
    → split_fields (s ++ soh ∷ rest) ≡ s ∷ split_fields rest
unfolding split_fields onto_first
split_fields-soh [] rest h = refl
split_fields-soh (c ∷ s) rest h = rw (h.0, split_fields-soh s rest h.1) refl

split_at_equals-tag :
    (s rest : Text)
    → All (λ c. (c == b'=') ≡ false) s
    → split_at_equals (s ++ b'=' ∷ rest) ≡ some (s, rest)
unfolding split_at_equals onto_tag
split_at_equals-tag [] rest h = refl
split_at_equals-tag (c ∷ s) rest h = rw (h.0, split_at_equals-tag s rest h.1) refl

split_fields-written :
    (tag : ℕ) (value rest : Text)
    → IsField (tag, value)
    → split_fields (written tag value ++ rest) ≡ (to_string tag ++ b'=' ∷ value) ∷ split_fields rest
unfolding written
split_fields-written tag value rest h =
    let digits = digits-All soh (to_string tag) (inl (omega arith)) (to_string-IsDigit tag h.0) in
    let line = to_string tag ++ b'=' ∷ value in
    ap split_fields (append_assoc line (soh ∷ []) rest)
    ∙ split_fields-soh line rest
        (All-append (λ c. (c == soh) ≡ false) (to_string tag) (b'=' ∷ value) digits (refl, h.1))

parse_field-written :
    (m : FixMessage) (tag : ℕ) (value : Text)
    → tag < int_limit
    → parse_field m (to_string tag ++ b'=' ∷ value)
      ≡ add_field m (record { tag = tag; value = value })
unfolding parse_field add_split add_parsed
parse_field-written m tag value fits =
    let digits = digits-All b'=' (to_string tag) (inr (omega arith)) (to_string-IsDigit tag fits) in
    rw (split_at_equals-tag (to_string tag) value digits, stoi-to_string tag fits) refl

pub parse_loop-encode :
    (m : FixMessage) (fs : Fields)
    → All IsField fs
    → parse_loop m (split_fields (encode fs)) ≡ add_all m fs
unfolding parse_loop split_fields encode add_all parse_field add_split split_at_equals
parse_loop-encode m [] h = refl
parse_loop-encode m ((tag, value) ∷ fs) h =
    let m₁ = add_field m (record { tag = tag; value = value }) in
    ap (parse_loop m) (split_fields-written tag value (encode fs) h.0)
    ∙ ap (λ k. parse_loop k (split_fields (encode fs))) (parse_field-written m tag value h.0.0)
    ∙ parse_loop-encode m₁ fs h.1
