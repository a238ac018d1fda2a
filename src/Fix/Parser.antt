-- ===== src/Fix/Parser.antt =====
-- `FixParser`.
use nasdaq_order_book.Base.{
  ℕ, Bool, false, ◌||◌, ◌&&◌, not, Option, none, some, List, [], ◌∷◌, ◌==◌, if◌then◌else◌, take,
  drop,
}
use nasdaq_order_book.Fix.Tag
use nasdaq_order_book.Fix.Text.{Text, stoi}
use nasdaq_order_book.Fix.Message.{soh, FixMessage, empty_message, add_field, has_field, checksum}

unfoldable pub onto_first : ℕ → List Text → List Text
onto_first c [] = (c ∷ []) ∷ []
onto_first c (l ∷ ls) = (c ∷ l) ∷ ls

-- What `std::getline` reads one after the other, but for an empty text at the end, which is skipped.
unfoldable pub split_fields : Text → List Text
split_fields [] = [] ∷ []
split_fields (c ∷ s) =
    let rest = split_fields s in if c == soh then [] ∷ rest else onto_first c rest

unfoldable pub onto_tag : ℕ → Option (Text × Text) → Option (Text × Text)
onto_tag c none = none
onto_tag c (some (t, v)) = some (c ∷ t, v)

-- What stands before the first '=' and behind it.
unfoldable pub split_at_equals : Text → Option (Text × Text)
split_at_equals [] = none
split_at_equals (c ∷ s) =
    let rest = split_at_equals s in if c == b'=' then some ([], s) else onto_tag c rest

unfoldable pub add_parsed : FixMessage → Option ℕ → Text → FixMessage
add_parsed m none value = m
add_parsed m (some tag) value = add_field m (record { tag = tag; value = value })

-- A field without '=' or without a number before it is skipped.
unfoldable pub add_split : FixMessage → Option (Text × Text) → FixMessage
unfolding add_parsed
add_split m none = m
add_split m (some (tag, value)) = add_parsed m (stoi tag) value

-- The body of the loop; an empty field has no '='.
unfoldable pub parse_field : FixMessage → Text → FixMessage
unfolding add_split
parse_field m field = add_split m (split_at_equals field)

unfoldable pub parse_loop : FixMessage → List Text → FixMessage
parse_loop m [] = m
parse_loop m (field ∷ fields) = parse_loop (parse_field m field) fields

unfoldable pub required : FixMessage → Option FixMessage
required m =
    if not (has_field m Tag.begin_string) || not (has_field m Tag.msg_type) then none else some m

-- The empty text has no fields either.
unfoldable pub parse : Text → Option FixMessage
unfolding required parse_loop
parse fix_string = required (parse_loop empty_message (split_fields fix_string))

-- The text begins with "10=".
unfoldable pub starts_trailer : Text → Bool
starts_trailer s = elim s [
  | a ∷ b ∷ c ∷ _ ↦ (a == b'1') && ((b == b'0') && (c == b'='))
  | _ ↦ false
]

-- `rfind("10=")`: the text up to the end of the last "10=", and what stands behind it.
unfoldable pub onto_front : ℕ → Option (Text × Text) → Text → Option (Text × Text)
unfolding starts_trailer
onto_front c (some (front, back)) s = some (c ∷ front, back)
onto_front c none s = if starts_trailer (c ∷ s) then some (take 3 (c ∷ s), drop 3 (c ∷ s)) else none

unfoldable pub split_trailer : Text → Option (Text × Text)
unfolding onto_front
split_trailer [] = none
split_trailer (c ∷ s) = onto_front c (split_trailer s) s

unfoldable pub is_stated : ℕ → Option ℕ → Bool
is_stated calculated none = false
is_stated calculated (some stated) = calculated == stated

unfoldable pub validate_split : Option (Text × Text) → Bool
unfolding is_stated
validate_split none = false
validate_split (some (front, back)) = is_stated (checksum front) (stoi (take 3 back))

unfoldable pub validate_checksum : Text → Bool
unfolding validate_split split_trailer
validate_checksum fix_string = validate_split (split_trailer fix_string)
