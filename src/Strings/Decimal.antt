-- ===== src/Strings/Decimal.antt =====
-- `%d` and strconv.Atoi, with a 64-bit `int`.
pub mod Laws
use openconnectd.Base.{
  ℕ, zero, suc, ◌+◌, ◌-◌, ◌*◌, ◌/◌, ◌%◌, ◌^◌, ◌≡◌, refl, Bool, ◌&&◌, [], ◌∷◌, Option, none, some,
  Text, codes, leb, ltb, ◌==◌, if◌then◌else◌,
}
use openconnectd.Base.Int.{ℤ, pos, negsuc}

-- One digit for each round; `n` rounds and one more are always enough.
format_digits : ℕ → ℕ → Text → Text
format_digits zero n out = out
format_digits (suc f) n out =
    let more = format_digits f (n / 10) ((b'0' + n % 10) ∷ out) in
    if ltb n 10 then (b'0' + n) ∷ out else more

unfoldable pub format_nat : ℕ → Text
unfolding format_digits
format_nat n = format_digits (suc n) n []

unfoldable pub format_int : ℤ → Text
format_int (pos n) = format_nat n
format_int (negsuc n) = b'-' ∷ format_nat (suc n)

abbrev pub is_digit : ℕ → Bool
is_digit c = leb b'0' c && leb c b'9'

-- The number that the digits spell behind `n`.
unfoldable pub read_digits : ℕ → Text → Option ℕ
read_digits n [] = some n
read_digits n (c ∷ s) =
    let rest = read_digits (n * 10 + (c - b'0')) s in if is_digit c then rest else none

abbrev read_nat : Text → Option ℕ
read_nat [] = none
read_nat (c ∷ s) = read_digits 0 (c ∷ s)

abbrev fits_pos : Option ℕ → Option ℤ
fits_pos none = none
fits_pos (some n) = if ltb n (2 ^ 63) then some (pos n) else none

abbrev fits_neg : Option ℕ → Option ℤ
fits_neg none = none
fits_neg (some zero) = some (pos 0)
fits_neg (some (suc n)) = if ltb n (2 ^ 63) then some (negsuc n) else none

-- strconv.Atoi; `none` is a syntax or a range error
unfoldable pub atoi : Text → Option ℤ
unfolding read_digits
atoi [] = none
atoi (c ∷ s) =
    if c == b'-'
    then fits_neg (read_nat s)
    else if c == b'+'
    then fits_pos (read_nat s)
    else fits_pos (read_nat (c ∷ s))
