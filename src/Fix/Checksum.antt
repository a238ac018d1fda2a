-- ===== src/Fix/Checksum.antt =====
-- `FixParser::validate_checksum` on what `FixMessage::to_fix_string` writes.
use nasdaq_order_book.Base.{
  ℕ, ◌+◌, ◌/◌, ◌%◌, ◌<◌, ◌≡◌, refl, Bool, true, false, ◌&&◌, some, [], ◌∷◌, ◌++◌, ◌==◌, arith,
}
use nasdaq_order_book.Fix.Text.{
  Text, is_digit, read_digits, stoi, signed, skip_spaces, to_string, unsigned_to_string, decimal,
}
use nasdaq_order_book.Fix.Numbers.{stoi-digits}
use nasdaq_order_book.Fix.Message.{
  soh, FixMessage, written, checksum, three_digits, head_and_body, to_fix_string,
}
use nasdaq_order_book.Fix.Parser.{
  starts_trailer, onto_front, split_trailer, is_stated, validate_split, validate_checksum,
}

-- The last field, in front of which the checksum is taken.
abbrev trailer : Text → Text
trailer digits = b'1' ∷ b'0' ∷ b'=' ∷ digits ++ soh ∷ []

read_three : (n : ℕ) → n < 256 → read_digits 0 (three_digits n) ≡ n
unfolding three_digits read_digits
read_three n small =
    let first : is_digit (b'0' + n / 100) ≡ true = ground (arith, small) in
    let second : is_digit (b'0' + n / 10 % 10) ≡ true = ground arith in
    let third : is_digit (b'0' + n % 10) ≡ true = ground arith in
    rw (first, second, third) (omega arith)

stoi-three_digits : (n : ℕ) → n < 256 → stoi (three_digits n) ≡ some n
unfolding three_digits
stoi-three_digits n small =
    stoi-digits (b'0' + n / 100) ((b'0' + n / 10 % 10) ∷ (b'0' + n % 10) ∷ []) n
      (omega arith, omega (arith, small)) (read_three n small) (omega (arith, small))

pub checksum_small : (s : Text) → checksum s < 256
unfolding checksum
checksum_small [] = omega arith
checksum_small (c ∷ s) = omega arith

checksum-append : (s t : Text) → checksum (s ++ t) ≡ (checksum s + checksum t) % 256
unfolding checksum
checksum-append [] t = omega (arith, checksum_small t)
checksum-append (c ∷ s) t = omega (arith, checksum-append s t)

never : (a b : Bool) → (a && (b && false)) ≡ false
never true true = refl
never true false = refl
never false b = refl

-- The last "10=" is that of the last field.
split_trailer-trailer :
    (n : ℕ)
    → n < 256
    → split_trailer (trailer (three_digits n))
      ≡ some (b'1' ∷ b'0' ∷ b'=' ∷ [], three_digits n ++ soh ∷ [])
unfolding split_trailer onto_front starts_trailer three_digits
split_trailer-trailer n small =
    let not_equals : (b'0' + n % 10 == b'=') ≡ false = ground arith in
    rw
      (
        never (b'0' + n / 10 % 10 == b'1') (b'0' + n % 10 == b'0'),
        not_equals,
        never (b'0' + n / 100 == b'1') (b'0' + n / 10 % 10 == b'0'),
      )
      refl

split_trailer-append :
    (s front back t : Text)
    → split_trailer t ≡ some (front, back)
    → split_trailer (s ++ t) ≡ some (s ++ front, back)
unfolding split_trailer onto_front
split_trailer-append [] front back t h = h
split_trailer-append (c ∷ s) front back t h = rw (split_trailer-append s front back t h) refl

trailer_sum : checksum (b'1' ∷ b'0' ∷ b'=' ∷ []) ≡ 158
unfolding checksum
trailer_sum = refl

-- The text of every message ends with its trailer.
to_fix_string-trailer :
    (m : FixMessage)
    → to_fix_string m ≡ head_and_body m ++ trailer (three_digits (checksum (head_and_body m)))
unfolding to_fix_string written to_string unsigned_to_string decimal
to_fix_string-trailer m = refl

-- The checksum that is recomputed takes in the "10=" that the one in the message leaves out, so no
-- text that a message is written as passes the test of its own checksum.
pub validate_checksum-to_fix_string : (m : FixMessage) → validate_checksum (to_fix_string m) ≡ false
unfolding validate_checksum validate_split is_stated stoi signed skip_spaces three_digits
validate_checksum-to_fix_string m =
    let s = head_and_body m in
    let n = checksum s in
    let small = checksum_small s in
    let found =
      split_trailer-append s (b'1' ∷ b'0' ∷ b'=' ∷ []) (three_digits n ++ soh ∷ [])
        (trailer (three_digits n)) (split_trailer-trailer n small) in
    let differs : (checksum (s ++ b'1' ∷ b'0' ∷ b'=' ∷ []) == n) ≡ false =
      ground (arith, checksum-append s (b'1' ∷ b'0' ∷ b'=' ∷ []), small, trailer_sum) in
    rw (to_fix_string-trailer m, found, stoi-three_digits n small) differs
