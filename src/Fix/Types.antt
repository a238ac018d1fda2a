-- ===== src/Fix/Types.antt =====
-- The message types that come out of `FixMessageBuilder`.
use nasdaq_order_book.Base.{
  ℕ, ◌≡◌, refl, ap, Bool, true, false, Option, none, some, [], ◌∷◌, ◌==◌, if◌then◌else◌, ◌&&◌,
}
use nasdaq_order_book.Base.Assoc.{lookup, insert, lookup-insert}
use nasdaq_order_book.Fix.Tag
use nasdaq_order_book.Fix.Text.{Text, decimal, unsigned_to_string, to_string}
use nasdaq_order_book.Fix.Message.{
  FixMessage, add_field, char_field, first_char, get_field_as_char, get_msg_type,
}
use nasdaq_order_book.Fix.Builder.{
  add_text, add_char, add_int, add_double, add_nonempty, create_header, create_logon, create_logout,
  create_heartbeat, limit, new_order_single, execution_report, add_order_fields,
  add_execution_fields, NewOrder, create_new_order_single, Execution, create_execution_report,
}

-- Another field does not change the type.
add_text-type :
    (m : FixMessage) (tag : ℕ) (value : Text)
    → (tag == Tag.msg_type) ≡ false
    → get_msg_type (add_text m tag value) ≡ get_msg_type m
unfolding get_msg_type get_field_as_char add_text add_field
add_text-type m tag value other =
    let same : lookup Tag.msg_type (insert tag value m.fields) ≡ lookup Tag.msg_type m.fields =
      rw (lookup-insert, other) refl in
    ap (λ (r : Option Text). elim r [ none ↦ none | some v ↦ some (first_char v) ]) same

add_nonempty-type :
    (m : FixMessage) (tag : ℕ) (value : Text)
    → (tag == Tag.msg_type) ≡ false
    → get_msg_type (add_nonempty m tag value) ≡ get_msg_type m
unfolding add_nonempty
add_nonempty-type m tag [] other = refl
add_nonempty-type m tag (c ∷ value) other = add_text-type m tag (c ∷ value) other

if-type :
    (b : Bool) (m n : FixMessage) (c : ℕ)
    → get_msg_type m ≡ some c
    → get_msg_type n ≡ some c
    → get_msg_type (if b then m else n) ≡ some c
if-type true m n c h k = h
if-type false m n c h k = k

create_header-type :
    (type : ℕ) (sender target : Text) (seq_num : ℕ) (now : Text)
    → get_msg_type (create_header type sender target seq_num now)
      ≡ some (first_char (to_string type))
unfolding create_header add_text add_char char_field add_int add_field get_msg_type
    get_field_as_char lookup insert
create_header-type type sender target seq_num now = refl

-- The type of a message is written as the decimal code of its character, of which the first digit is
-- read back: a logon and a heartbeat ('A'), and a new order ('D'), have type '6', an execution report
-- ('8') has that of a logout, '5', and only a logout has its own.
pub get_msg_type-create :
    (sender target : Text) (seq_num : ℕ) (now text : Text) (interval : ℕ) (o : NewOrder)
    (e : Execution)
    → (get_msg_type (create_logon sender target seq_num interval now) ≡ some b'6')
      × (get_msg_type (create_heartbeat sender target seq_num text now) ≡ some b'6')
      × (get_msg_type (create_new_order_single sender target seq_num o now) ≡ some b'6')
      × (get_msg_type (create_execution_report sender target seq_num e now) ≡ some b'5')
      × (get_msg_type (create_logout sender target seq_num text now) ≡ some b'5')
unfolding create_logon create_logout create_heartbeat create_new_order_single
    create_execution_report create_header add_order_fields add_execution_fields add_int add_char
    add_double char_field add_text add_field get_msg_type get_field_as_char lookup insert to_string
    unsigned_to_string decimal first_char
get_msg_type-create sender target seq_num now text interval o e =
    let order = add_order_fields (create_header new_order_single sender target seq_num now) o in
    let report =
      add_execution_fields (create_header execution_report sender target seq_num now) e in
    (
      refl,
      add_nonempty-type (create_header b'A' sender target seq_num now) Tag.test_req_id text refl,
      if-type ((o.ord_type == limit) && o.price.is_positive) (add_double order Tag.price o.price)
          order b'6' refl refl,
      if-type e.last_shares.is_positive
          (add_double (add_double report Tag.last_shares e.last_shares) Tag.last_px e.last_px)
          report b'5' refl refl,
      add_nonempty-type (create_header b'5' sender target seq_num now) Tag.text text refl,
    )
