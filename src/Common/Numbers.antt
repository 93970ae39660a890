-- ===== src/Common/Numbers.antt =====
-- strconv.ParseInt(s, 10, 64), and strconv.Atoi where int has 64 bits: `none` is an error.
use steve.Common.{
  ℕ, zero, suc, ◌+◌, ◌-◌, ◌*◌, ◌^◌, Str, ◌&&◌, [], ◌∷◌, Option, none, some, leb, ltb, ◌%◌, eqb,
  if◌then◌else◌,
}

-- `negsuc n` is -(n + 1).
pub data ℤ : Type 0 where
  pos : ℕ → ℤ
  negsuc : ℕ → ℤ

-- Decimal digits behind a number read so far.
unfoldable pub read_digits : ℕ → Str → Option ℕ
read_digits n [] = some n
read_digits n (c ∷ s) =
    if leb b'0' c && leb c b'9' then read_digits (n * 10 + (c - b'0')) s else none

unfoldable pub read_number : Str → Option ℕ
unfolding read_digits
read_number [] = none
read_number (c ∷ s) = read_digits 0 (c ∷ s)

abbrev positive : Option ℕ → Option ℤ
positive none = none
positive (some n) = if leb n (2 ^ 63 - 1) then some (pos n) else none

abbrev minus : ℕ → ℤ
minus zero = pos 0
minus (suc n) = negsuc n

abbrev negative : Option ℕ → Option ℤ
negative none = none
negative (some n) = if leb n (2 ^ 63) then some (minus n) else none

unfoldable pub parse_int : Str → Option ℤ
unfolding read_number
parse_int [] = none
parse_int (c ∷ s) =
    if eqb c b'-'
    then negative (read_number s)
    else if eqb c b'+'
    then positive (read_number s)
    else positive (read_number (c ∷ s))

-- An int of 64 bits from the sum or product of two that are not negative: it wraps around.
abbrev pub int64 : ℕ → ℤ
int64 n = if ltb (n % 2 ^ 64) (2 ^ 63) then pos (n % 2 ^ 64) else negsuc (2 ^ 64 - 1 - n % 2 ^ 64)
