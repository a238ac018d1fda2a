-- ===== src/Fix/Tests.antt =====
-- FIX messages in small, and the theorems at them.
use nasdaq_order_book.Base.{◌≡◌, refl, true, false, some, [], ◌∷◌, arith}
use nasdaq_order_book.Base.Assoc.{keys, lookup, insert}
use nasdaq_order_book.Fix.Tag
use nasdaq_order_book.Fix.Text.{decimal, unsigned_to_string, to_string}
use nasdaq_order_book.Fix.Message.{
  FixMessage, empty_message, is_new, add_field, get_msg_type, is_special, written, written_if,
  body_of, checksum, three_digits, head_and_body, to_fix_string,
}
use nasdaq_order_book.Fix.Parser.{parse, validate_checksum}
use nasdaq_order_book.Fix.Builder.{
  version_4_2, Double, NewOrder, Execution, create_logon, create_heartbeat, create_logout,
  create_new_order_single, create_execution_report,
}
use nasdaq_order_book.Fix.Checksum.{validate_checksum-to_fix_string}
use nasdaq_order_book.Fix.Wire.{Fields, add_all}
use nasdaq_order_book.Fix.Roundtrip.{sent, parse-to_fix_string}
use nasdaq_order_book.Fix.Types.{get_msg_type-create}

-- A version, a type, a sender and a text.
abbrev fields : Fields
fields =
    (Tag.begin_string, version_4_2)
    ∷ (Tag.msg_type, b'D' ∷ [])
    ∷ (Tag.sender_comp_id, b'M' ∷ b'E' ∷ [])
    ∷ (Tag.text, b'a' ∷ b'=' ∷ b'b' ∷ [])
    ∷ []

parse-to_fix_string_example :
    parse (to_fix_string (add_all empty_message fields))
    ≡ some (add_all empty_message (sent version_4_2 fields))
unfolding keys lookup
parse-to_fix_string_example =
    parse-to_fix_string version_4_2 (b'D' ∷ []) fields (refl, (refl, (refl, (refl, tt))))
      (
        (omega arith, (refl, (refl, (refl, (refl, (refl, (refl, (refl, tt)))))))),
        (
          (omega arith, (refl, tt)),
          ((omega arith, (refl, (refl, tt))), ((omega arith, (refl, (refl, (refl, tt)))), tt)),
        ),
      )
      refl refl

abbrev heartbeat : FixMessage
heartbeat = create_heartbeat (b'M' ∷ []) (b'E' ∷ []) 12 [] (b'n' ∷ [])

validate_checksum-to_fix_string_example : validate_checksum (to_fix_string heartbeat) ≡ false
validate_checksum-to_fix_string_example = validate_checksum-to_fix_string heartbeat

abbrev one : Double
one = record { text = b'1' ∷ b'.' ∷ b'0' ∷ []; is_positive = true }

abbrev order : NewOrder
order = record {
  cl_ord_id = b'7' ∷ [];
  symbol = b'A' ∷ [];
  side = b'1';
  quantity = one;
  ord_type = b'2';
  price = one;
  time_in_force = b'0';
  transact_time = b'n' ∷ [];
}

abbrev execution : Execution
execution = record {
  order_id = b'7' ∷ [];
  cl_ord_id = b'7' ∷ [];
  exec_id = b'1' ∷ [];
  exec_type = b'2';
  ord_status = b'2';
  symbol = b'A' ∷ [];
  side = b'1';
  leaves_qty = one;
  cum_qty = one;
  avg_px = one;
  last_shares = one;
  last_px = one;
}

get_msg_type-create_example :
    (get_msg_type (create_logon (b'M' ∷ []) (b'E' ∷ []) 1 30 (b'n' ∷ [])) ≡ some b'6')
    × (get_msg_type (create_heartbeat (b'M' ∷ []) (b'E' ∷ []) 1 [] (b'n' ∷ [])) ≡ some b'6')
    × (get_msg_type (create_new_order_single (b'M' ∷ []) (b'E' ∷ []) 1 order (b'n' ∷ []))
        ≡ some b'6')
    × (get_msg_type (create_execution_report (b'M' ∷ []) (b'E' ∷ []) 1 execution (b'n' ∷ []))
        ≡ some b'5')
    × (get_msg_type (create_logout (b'M' ∷ []) (b'E' ∷ []) 1 [] (b'n' ∷ [])) ≡ some b'5')
get_msg_type-create_example =
    get_msg_type-create (b'M' ∷ []) (b'E' ∷ []) 1 (b'n' ∷ []) [] 30 order execution

-- The text of a message of three fields: 8=F, 35=D, 58=a.
on_the_wire :
    to_fix_string (add_all empty_message ((8, b'F' ∷ []) ∷ (35, b'D' ∷ []) ∷ (58, b'a' ∷ []) ∷ []))
    ≡ b'8' ∷ b'=' ∷ b'F' ∷ 1 ∷ b'9' ∷ b'=' ∷ b'1' ∷ b'0' ∷ 1 ∷ b'3' ∷ b'5' ∷ b'=' ∷ b'D' ∷ 1 ∷ b'5'
      ∷ b'8' ∷ b'=' ∷ b'a' ∷ 1 ∷ b'1' ∷ b'0' ∷ b'=' ∷ b'1' ∷ b'3' ∷ b'8' ∷ 1 ∷ []
unfolding to_fix_string head_and_body body_of written written_if checksum three_digits add_all
    add_field is_new is_special insert lookup to_string unsigned_to_string decimal
on_the_wire = refl
