-- ===== src/Fix/Builder.antt =====
-- `FixMessageBuilder`. The time stamps are texts that the clock gives, and a `double` is what the
-- builders use of it: its text by `std::to_string`, and whether it is greater than 0.
use nasdaq_order_book.Base.{ℕ, Bool, ◌&&◌, [], ◌∷◌, ◌==◌, if◌then◌else◌}
use nasdaq_order_book.Fix.Tag
use nasdaq_order_book.Fix.Text.{Text, to_string}
use nasdaq_order_book.Fix.Message.{FixMessage, empty_message, add_field, char_field}

abbrev pub version_4_2 : Text
version_4_2 = b'F' ∷ b'I' ∷ b'X' ∷ b'.' ∷ b'4' ∷ b'.' ∷ b'2' ∷ []

-- The codes of `MsgType` that the builders write, and of `OrdType::LIMIT`.
abbrev pub heartbeat : ℕ
heartbeat = b'A'

abbrev pub logout : ℕ
logout = b'5'

abbrev pub logon : ℕ
logon = b'A'

abbrev pub new_order_single : ℕ
new_order_single = b'D'

abbrev pub execution_report : ℕ
execution_report = b'8'

abbrev pub limit : ℕ
limit = b'2'

pub record Double : Type 0 where
  pub text : Text
  pub is_positive : Bool

-- `add_field` at a text, at a `char`, at an `int` and at a `double`
unfoldable pub add_text : FixMessage → ℕ → Text → FixMessage
add_text m tag value = add_field m (record { tag = tag; value = value })

unfoldable pub add_char : FixMessage → ℕ → ℕ → FixMessage
add_char m tag c = add_field m (char_field tag c)

unfoldable pub add_int : FixMessage → ℕ → ℕ → FixMessage
unfolding add_text
add_int m tag n = add_text m tag (to_string n)

unfoldable pub add_double : FixMessage → ℕ → Double → FixMessage
unfolding add_text
add_double m tag d = add_text m tag d.text

unfoldable pub add_nonempty : FixMessage → ℕ → Text → FixMessage
unfolding add_text
add_nonempty m tag [] = m
add_nonempty m tag (c ∷ value) = add_text m tag (c ∷ value)

-- The fields with which every message begins.
unfoldable pub create_header : ℕ → Text → Text → ℕ → Text → FixMessage
unfolding add_text add_char add_int
create_header type sender target seq_num now =
    let m₁ = add_text empty_message Tag.begin_string version_4_2 in
    let m₂ = add_char m₁ Tag.msg_type type in
    let m₃ = add_text m₂ Tag.sender_comp_id sender in
    let m₄ = add_text m₃ Tag.target_comp_id target in
    let m₅ = add_int m₄ Tag.msg_seq_num seq_num in add_text m₅ Tag.sending_time now

unfoldable pub create_logon : Text → Text → ℕ → ℕ → Text → FixMessage
unfolding create_header add_int
create_logon sender target seq_num heartbeat_int now =
    let m = create_header logon sender target seq_num now in
    add_int (add_int m Tag.encrypt_method 0) Tag.heart_bt_int heartbeat_int

unfoldable pub create_logout : Text → Text → ℕ → Text → Text → FixMessage
unfolding create_header add_nonempty
create_logout sender target seq_num reason now =
    add_nonempty (create_header logout sender target seq_num now) Tag.text reason

unfoldable pub create_heartbeat : Text → Text → ℕ → Text → Text → FixMessage
unfolding create_header add_nonempty
create_heartbeat sender target seq_num test_req_id now =
    add_nonempty (create_header heartbeat sender target seq_num now) Tag.test_req_id test_req_id

-- `cl_ord_id`, symbol, side, quantity, type, price, time in force and the second time stamp
pub record NewOrder : Type 0 where
  pub cl_ord_id : Text
  pub symbol : Text
  pub side : ℕ
  pub quantity : Double
  pub ord_type : ℕ
  pub price : Double
  pub time_in_force : ℕ
  pub transact_time : Text

-- The fields that a new order always has, and those of an execution report.
unfoldable pub add_order_fields : FixMessage → NewOrder → FixMessage
unfolding add_text add_char add_double
add_order_fields m₁ o =
    let m₂ = add_text m₁ Tag.cl_ord_id o.cl_ord_id in
    let m₃ = add_text m₂ Tag.symbol o.symbol in
    let m₄ = add_char m₃ Tag.side o.side in
    let m₅ = add_double m₄ Tag.order_qty o.quantity in
    let m₆ = add_char m₅ Tag.ord_type o.ord_type in
    let m₇ = add_char m₆ Tag.time_in_force o.time_in_force in
    add_text m₇ Tag.transact_time o.transact_time

unfoldable pub create_new_order_single : Text → Text → ℕ → NewOrder → Text → FixMessage
unfolding create_header add_order_fields add_double
create_new_order_single sender target seq_num o now =
    let m = add_order_fields (create_header new_order_single sender target seq_num now) o in
    if (o.ord_type == limit) && o.price.is_positive then add_double m Tag.price o.price else m

pub record Execution : Type 0 where
  pub order_id : Text
  pub cl_ord_id : Text
  pub exec_id : Text
  pub exec_type : ℕ
  pub ord_status : ℕ
  pub symbol : Text
  pub side : ℕ
  pub leaves_qty : Double
  pub cum_qty : Double
  pub avg_px : Double
  pub last_shares : Double
  pub last_px : Double

unfoldable pub add_execution_fields : FixMessage → Execution → FixMessage
unfolding add_text add_char add_double
add_execution_fields m₁ e =
    let m₂ = add_text m₁ Tag.order_id e.order_id in
    let m₃ = add_text m₂ Tag.cl_ord_id e.cl_ord_id in
    let m₄ = add_text m₃ Tag.exec_id e.exec_id in
    let m₅ = add_char m₄ Tag.exec_type e.exec_type in
    let m₆ = add_char m₅ Tag.ord_status e.ord_status in
    let m₇ = add_text m₆ Tag.symbol e.symbol in
    let m₈ = add_char m₇ Tag.side e.side in
    let m₉ = add_double m₈ Tag.leaves_qty e.leaves_qty in
    let m₁₀ = add_double m₉ Tag.cum_qty e.cum_qty in add_double m₁₀ Tag.avg_px e.avg_px

unfoldable pub create_execution_report : Text → Text → ℕ → Execution → Text → FixMessage
unfolding create_header add_execution_fields add_double
create_execution_report sender target seq_num e now =
    let m = add_execution_fields (create_header execution_report sender target seq_num now) e in
    if e.last_shares.is_positive
    then add_double (add_double m Tag.last_shares e.last_shares) Tag.last_px e.last_px
    else m
