-- ===== src/Fix/Message.antt =====
-- `FixField` and `FixMessage`.
use nasdaq_order_book.Base.{
  ℕ, ◌+◌, ◌/◌, ◌%◌, Bool, true, false, ◌||◌, not, Option, none, some, List, [], ◌∷◌, ◌++◌, ◌==◌,
  if◌then◌else◌, length,
}
use nasdaq_order_book.Base.Assoc.{lookup, insert}
use nasdaq_order_book.Fix.Tag
use nasdaq_order_book.Fix.Text.{Text, to_string, unsigned_to_string, stoi}

abbrev pub soh : ℕ
soh = 1

pub record FixField : Type 0 where
  pub tag : ℕ
  pub value : Text

-- A `char` is an arithmetic type, so `add_field` writes its code in decimal.
unfoldable pub char_field : ℕ → ℕ → FixField
unfolding to_string
char_field tag c = record { tag = tag; value = to_string c }

unfoldable pub field_to_string : FixField → Text
field_to_string f = to_string f.tag ++ b'=' ∷ f.value ++ soh ∷ []

-- The map of the fields and the order of their tags
pub record FixMessage : Type 0 where
  pub fields : List (ℕ × Text)
  pub field_order : List ℕ

abbrev pub empty_message : FixMessage
empty_message = record { fields = []; field_order = [] }

unfoldable pub is_new : Option Text → Bool
is_new none = true
is_new (some _) = false

unfoldable pub add_field : FixMessage → FixField → FixMessage
unfolding is_new
add_field m f = record {
  fields = insert f.tag f.value m.fields;
  field_order =
      if is_new (lookup f.tag m.fields) then m.field_order ++ f.tag ∷ [] else m.field_order;
}

unfoldable pub get_field : FixMessage → ℕ → Option Text
get_field m tag = lookup tag m.fields

unfoldable pub has_field : FixMessage → ℕ → Bool
has_field m tag = not (is_new (lookup tag m.fields))

-- `get_field_as` at `char` and at `int`; the inner none is an exception.
unfoldable pub first_char : Text → ℕ
first_char [] = 0
first_char (c ∷ _) = c

unfoldable pub get_field_as_char : FixMessage → ℕ → Option ℕ
get_field_as_char m tag = elim (lookup tag m.fields) [ none ↦ none | some v ↦ some (first_char v) ]

unfoldable pub get_field_as_int : FixMessage → ℕ → Option (Option ℕ)
unfolding stoi
get_field_as_int m tag = elim (lookup tag m.fields) [ none ↦ none | some v ↦ some (stoi v) ]

unfoldable pub get_msg_type : FixMessage → Option ℕ
get_msg_type m = get_field_as_char m Tag.msg_type

unfoldable pub clear : FixMessage → FixMessage
clear m = empty_message

-- The tags that the serialisation writes itself
unfoldable pub is_special : ℕ → Bool
is_special tag = tag == Tag.begin_string || tag == Tag.body_length || tag == Tag.check_sum

-- `std::to_string(tag) + "=" + value + SOH`
unfoldable pub written : ℕ → Text → Text
written tag value = to_string tag ++ (b'=' ∷ value) ++ soh ∷ []

unfoldable pub written_if : ℕ → Option Text → Text
written_if tag none = []
written_if tag (some v) = written tag v

-- The loop that builds the body
unfoldable pub body_of : List (ℕ × Text) → List ℕ → Text
body_of fields [] = []
body_of fields (tag ∷ tags) =
    let rest = body_of fields tags in
    if is_special tag then rest else written_if tag (lookup tag fields) ++ rest

-- The sum of the bytes as an `unsigned char`
unfoldable pub checksum : Text → ℕ
checksum [] = 0
checksum (c ∷ s) = (c + checksum s) % 256

-- Three digits, with zeros in front; a checksum has no more.
unfoldable pub three_digits : ℕ → Text
three_digits n = (b'0' + n / 100) ∷ (b'0' + n / 10 % 10) ∷ (b'0' + n % 10) ∷ []

-- The message up to the checksum
unfoldable pub head_and_body : FixMessage → Text
unfolding body_of
head_and_body m =
    let body = body_of m.fields m.field_order in
    written_if Tag.begin_string (lookup Tag.begin_string m.fields)
    ++ written Tag.body_length (unsigned_to_string (length body))
    ++ body

unfoldable pub to_fix_string : FixMessage → Text
unfolding checksum three_digits
to_fix_string m =
    let msg = head_and_body m in msg ++ written Tag.check_sum (three_digits (checksum msg))
