-- ===== src/Pki/Serial.antt =====
-- The hexadecimal serials of internal/ocserv/pki.go: `serial.Text(16)` and `SetString(s, 16)`.
use openconnectd.Base.{
  ℕ, zero, suc, ◌+◌, ◌-◌, ◌*◌, ◌/◌, ◌%◌, ◌<◌, ◌≡◌, refl, ◌∙◌, Bool, true, false, not, ◌&&◌, [], ◌∷◌,
  Option, none, some, Text, codes, leb, ltb, ◌==◌, if◌then◌else◌, arith,
}
use openconnectd.Base.Int.{ℤ, pos, negsuc}

hex_digit : ℕ → ℕ
hex_digit d = if ltb d 10 then b'0' + d else 87 + d

-- One digit for each round; `n` rounds and one more are always enough.
hex_digits : ℕ → ℕ → Text → Text
unfolding hex_digit
hex_digits zero n out = out
hex_digits (suc f) n out =
    let more = hex_digits f (n / 16) (hex_digit (n % 16) ∷ out) in
    if ltb n 16 then hex_digit n ∷ out else more

unfoldable pub format_hex : ℕ → Text
unfolding hex_digits
format_hex n = hex_digits (suc n) n []

-- The value of a digit; 16 is no digit.
hex_value : ℕ → ℕ
hex_value c =
    if leb b'0' c && leb c b'9'
    then c - b'0'
    else if leb b'a' c && leb c b'f'
    then c - 87
    else if leb b'A' c && leb c b'F'
    then c - 55
    else 16

read_hex : ℕ → Text → Option ℕ
read_hex n [] = some n
read_hex n (c ∷ s) =
    let rest = read_hex (n * 16 + hex_value c) s in if ltb (hex_value c) 16 then rest else none

read_some : Text → Option ℕ
unfolding read_hex hex_value
read_some [] = none
read_some (c ∷ s) = read_hex 0 (c ∷ s)

positive : Option ℕ → Option ℤ
positive none = none
positive (some n) = some (pos n)

negative : Option ℕ → Option ℤ
negative none = none
negative (some zero) = some (pos 0)
negative (some (suc n)) = some (negsuc n)

-- big.Int.SetString in base 16: a sign may stand before the digits
unfoldable pub parse_hex : Text → Option ℤ
unfolding read_some positive negative
parse_hex [] = none
parse_hex (c ∷ s) =
    if c == b'-'
    then negative (read_some s)
    else if c == b'+'
    then positive (read_some s)
    else positive (read_some (c ∷ s))

hexes :
    (format_hex 0 ≡ codes "0")
    × (format_hex 43981 ≡ codes "abcd")
    × (parse_hex (codes "-fF") ≡ some (negsuc 254))
    × (parse_hex (codes "1g") ≡ none)
unfolding format_hex parse_hex
hexes = (refl, refl, refl, refl)

hex_value-hex_digit : (d : ℕ) → d < 16 → hex_value (hex_digit d) ≡ d
unfolding hex_value hex_digit
hex_value-hex_digit d h = ground arith

read_hex-digit :
    (n d : ℕ) (out : Text) → d < 16 → read_hex n (hex_digit d ∷ out) ≡ read_hex (n * 16 + d) out
unfolding read_hex
read_hex-digit n d out h = ground (arith, hex_value-hex_digit d h)

read_hex-hex_digits :
    (f n : ℕ) (out : Text) → n < f → read_hex 0 (hex_digits f n out) ≡ read_hex n out
unfolding hex_digits
read_hex-hex_digits zero n out h = absurd (omega arith)
read_hex-hex_digits (suc f) n out h = ground (
  arith,
  read_hex-hex_digits f (n / 16) (hex_digit (n % 16) ∷ out),
  read_hex-digit (n / 16) (n % 16) out,
  read_hex-digit 0 n out,
)

-- The text is there and begins with no sign.
abbrev unsigned : Text → Bool
unsigned [] = false
unsigned (c ∷ s) = not (c == b'-') && not (c == b'+')

hex_digits-unsigned : (f n : ℕ) (out : Text) → n < f → unsigned (hex_digits f n out) ≡ true
unfolding hex_digits hex_digit
hex_digits-unsigned zero n out h = absurd (omega arith)
hex_digits-unsigned (suc f) n out h =
    ground (arith, hex_digits-unsigned f (n / 16) (hex_digit (n % 16) ∷ out))

parse_hex-unsigned :
    (s : Text) (n : ℕ) → unsigned s ≡ true → read_hex 0 s ≡ some n → parse_hex s ≡ some (pos n)
unfolding parse_hex
parse_hex-unsigned [] n u e = ground arith
parse_hex-unsigned (c ∷ s) n u e = ground arith

read_hex-end : (n : ℕ) → read_hex n [] ≡ some n
unfolding read_hex
read_hex-end n = refl

-- SetString reads back each serial that Text has printed, so no certificate that was issued is passed
-- over when the list of revoked serials is made.
parse_hex-format_hex : (n : ℕ) → parse_hex (format_hex n) ≡ some (pos n)
unfolding format_hex
parse_hex-format_hex n =
    parse_hex-unsigned (hex_digits (suc n) n []) n (hex_digits-unsigned (suc n) n [] (omega arith))
      (read_hex-hex_digits (suc n) n [] (omega arith) ∙ read_hex-end n)
