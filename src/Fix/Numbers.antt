-- ===== src/Fix/Numbers.antt =====
-- Decimal numbers read back.
use nasdaq_order_book.Base.{
  ℕ, zero, suc, ◌+◌, ◌*◌, ◌-◌, ◌/◌, ◌%◌, ◌<◌, ◌≤◌, ◌≡◌, refl, ◌∙◌, sym, ap, inl, inr, true, false,
  Bool-cases, some, [], ◌∷◌, ltb, ◌==◌, arith, All,
}
use nasdaq_order_book.Fix.Text.{
  Text, int_limit, is_digit, is_space, decimal, unsigned_to_string, to_string, skip_spaces,
  read_digits, magnitude, below, signed, stoi,
}

abbrev pub IsDigit : ℕ → Type 0
IsDigit c = (b'0' ≤ c) × (c ≤ b'9')

pub decimal-IsDigit : (k n : ℕ) (s : Text) → All IsDigit s → All IsDigit (decimal k n s)
unfolding decimal
decimal-IsDigit zero n s h = h
decimal-IsDigit (suc k) n s h = elim (Bool-cases (ltb n 10)) [
  | inl small ↦ rw (small) ((omega arith, ground arith), h)
  | inr large ↦
      rw (large) (decimal-IsDigit k (n / 10) ((b'0' + n % 10) ∷ s) ((omega arith, omega arith), h))
]

read_step : (n : ℕ) (s : Text) → read_digits (n / 10) ((b'0' + n % 10) ∷ s) ≡ read_digits n s
unfolding read_digits
read_step n s =
    let digit : is_digit (b'0' + n % 10) ≡ true = ground arith in
    let whole : n / 10 * 10 + (b'0' + n % 10 - b'0') ≡ n = omega arith in rw (digit, whole) refl

read_small : (n : ℕ) (s : Text) → n < 10 → read_digits 0 ((b'0' + n) ∷ s) ≡ read_digits n s
unfolding read_digits
read_small n s small =
    let digit : is_digit (b'0' + n) ≡ true = ground (arith, small) in
    let whole : 0 * 10 + (b'0' + n - b'0') ≡ n = omega arith in rw (digit, whole) refl

read_digits-decimal : (k n : ℕ) (s : Text) → n < k → read_digits 0 (decimal k n s) ≡ read_digits n s
unfolding decimal
read_digits-decimal zero n s enough = absurd (omega (arith, enough))
read_digits-decimal (suc k) n s enough = elim (Bool-cases (ltb n 10)) [
  | inl small ↦ rw (small) (read_small n s (ground arith))
  | inr large ↦ rw (large) (
      read_digits-decimal k (n / 10) ((b'0' + n % 10) ∷ s) (ground (arith, large, enough))
      ∙ (read_step n s))
]

-- There is a first digit.
decimal-first :
    (k n : ℕ) (s : Text) → n < k → (c : ℕ) × (t : Text) × (decimal k n s ≡ c ∷ t) × IsDigit c
unfolding decimal
decimal-first zero n s enough = absurd (omega (arith, enough))
decimal-first (suc k) n s enough = elim (Bool-cases (ltb n 10)) [
  | inl small ↦ (b'0' + n, s, rw (small, decimal) refl, (omega arith, ground arith))
  | inr large ↦
      let r = decimal-first k (n / 10) ((b'0' + n % 10) ∷ s) (ground (arith, large, enough)) in
      (r.0, r.1, rw (large, decimal) r.2, r.3)
]

read_end : (n : ℕ) → read_digits n [] ≡ n
unfolding read_digits
read_end n = refl

-- A text that begins with a digit is read as its digits.
pub stoi-digits :
    (c : ℕ) (t : Text) (n : ℕ)
    → IsDigit c
    → read_digits 0 (c ∷ t) ≡ n
    → n < int_limit
    → stoi (c ∷ t) ≡ some n
unfolding stoi skip_spaces signed magnitude below
stoi-digits c t n digit read fits =
    let no_space : is_space c ≡ false = ground (arith, digit) in
    let no_minus : (c == b'-') ≡ false = ground (arith, digit) in
    let no_plus : (c == b'+') ≡ false = ground (arith, digit) in
    let first : is_digit c ≡ true = ground (arith, digit) in
    let short : ltb n int_limit ≡ true = ground (arith, fits) in
    rw (no_space, no_minus, no_plus, first, read, short) refl

-- What `std::to_string` writes of a number that fits an `int`, `std::stoi` reads.
pub stoi-to_string : (n : ℕ) → n < int_limit → stoi (to_string n) ≡ some n
unfolding to_string unsigned_to_string
stoi-to_string n fits =
    let (c, t, shape, digit) = decimal-first (suc n) n [] (omega arith) in
    let read : read_digits 0 (c ∷ t) ≡ n =
      ap (read_digits 0) (sym shape)
      ∙ read_digits-decimal (suc n) n [] (omega arith)
      ∙ read_end n in
    let short : ltb n int_limit ≡ true = ground (arith, fits) in
    rw (short, shape) (stoi-digits c t n digit read fits)
