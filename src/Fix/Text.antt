-- ===== src/Fix/Text.antt =====
-- Texts, and the numbers in them: `std::to_string` and `std::stoi` of the standard library. An `int`
-- is its 32 bits as a number.
use nasdaq_order_book.Base.{
  ℕ, zero, suc, ◌+◌, ◌*◌, ◌-◌, ◌/◌, ◌%◌, ◌^◌, Bool, ◌||◌, ◌&&◌, Option, none, some, List, [], ◌∷◌,
  ltb, leb, ◌==◌, if◌then◌else◌, u32_mod,
}

abbrev pub Text : Type 0
Text = List ℕ

abbrev pub int_limit : ℕ
int_limit = 2 ^ 31

abbrev pub is_digit : ℕ → Bool
is_digit c = leb b'0' c && leb c b'9'

abbrev pub is_space : ℕ → Bool
is_space c = (leb 9 c && leb c 13) || (c == b' ')

-- The decimal digits of `n` in front of `s`.
unfoldable pub decimal : ℕ → ℕ → Text → Text
decimal zero n s = s
decimal (suc k) n s =
    let rest = decimal k (n / 10) ((b'0' + n % 10) ∷ s) in if ltb n 10 then (b'0' + n) ∷ s else rest

-- `std::to_string` of an unsigned number, which has no more digits than `n + 1`.
unfoldable pub unsigned_to_string : ℕ → Text
unfolding decimal
unsigned_to_string n = decimal (suc n) n []

-- `std::to_string` of an `int`
unfoldable pub to_string : ℕ → Text
unfolding unsigned_to_string
to_string n =
    if ltb n int_limit then unsigned_to_string n else b'-' ∷ unsigned_to_string (u32_mod - n)

unfoldable pub skip_spaces : Text → Text
skip_spaces [] = []
skip_spaces (c ∷ s) = let rest = skip_spaces s in if is_space c then rest else c ∷ s

-- The digits at the front, after those that make `acc`.
unfoldable pub read_digits : ℕ → Text → ℕ
read_digits acc [] = acc
read_digits acc (c ∷ s) =
    let rest = read_digits (acc * 10 + (c - b'0')) s in if is_digit c then rest else acc

unfoldable pub magnitude : Text → Option ℕ
magnitude [] = none
magnitude (c ∷ s) = if is_digit c then some (read_digits 0 (c ∷ s)) else none

unfoldable pub below : ℕ → Option ℕ → Option ℕ
below limit none = none
below limit (some n) = if ltb n limit then some n else none

unfoldable pub negate : Option ℕ → Option ℕ
negate none = none
negate (some n) = some ((u32_mod - n) % u32_mod)

unfoldable pub signed : Text → Option ℕ
signed [] = none
signed (c ∷ s) =
    if c == b'-'
    then negate (below (int_limit + 1) (magnitude s))
    else if c == b'+'
    then below int_limit (magnitude s)
    else below int_limit (magnitude (c ∷ s))

-- `std::stoi`, with none for an exception.
unfoldable pub stoi : Text → Option ℕ
stoi s = signed (skip_spaces s)
