-- ===== src/Strings/Decimal/Laws.antt =====
-- What Atoi reads of a printed `int`, and what a printed `int` is made of.
use openconnectd.Base.{
  ℕ, zero, suc, ◌+◌, ◌/◌, ◌%◌, ◌^◌, ◌<◌, ◌≡◌, ◌≢◌, refl, true, [], ◌∷◌, some, Text, arith, All, ◌∙◌,
}
use openconnectd.Base.Int.{ℤ, pos, negsuc}
use openconnectd.Strings.Decimal.{
  format_digits, format_nat, format_int, is_digit, read_digits, read_nat, atoi,
}

-- Reading the last digit behind the digits before it gives the number.
read_last : (n : ℕ) (out : Text) → read_digits (n / 10) ((b'0' + n % 10) ∷ out) ≡ read_digits n out
unfolding read_digits
read_last n out = ground arith

read_single : (n : ℕ) (out : Text) → n < 10 → read_digits 0 ((b'0' + n) ∷ out) ≡ read_digits n out
unfolding read_digits
read_single n out h = ground arith

read_digits-format_digits :
    (f n : ℕ) (out : Text) → n < f → read_digits 0 (format_digits f n out) ≡ read_digits n out
unfolding format_digits
read_digits-format_digits zero n out h = absurd (omega arith)
read_digits-format_digits (suc f) n out h = ground (
  arith,
  read_digits-format_digits f (n / 10) ((b'0' + n % 10) ∷ out),
  read_last n out,
  read_single n out,
)

abbrev pub IsDigit : ℕ → Type 0
IsDigit c = is_digit c ≡ true

-- A printed number is digits, and there is one.
format_digits-IsDigit :
    (f n : ℕ) (out : Text) → n < f → All IsDigit out → All IsDigit (format_digits f n out)
unfolding format_digits
format_digits-IsDigit zero n out h d = d
format_digits-IsDigit (suc f) n out h d =
    ground (arith, format_digits-IsDigit f (n / 10) ((b'0' + n % 10) ∷ out))

format_digits-ne-nil : (f n : ℕ) (out : Text) → n < f → format_digits f n out ≢ []
unfolding format_digits
format_digits-ne-nil zero n out h = absurd (omega arith)
format_digits-ne-nil (suc f) n out h =
    ground (arith, format_digits-ne-nil f (n / 10) ((b'0' + n % 10) ∷ out))

pub format_nat-IsDigit : (n : ℕ) → All IsDigit (format_nat n)
unfolding format_nat
format_nat-IsDigit n = format_digits-IsDigit (suc n) n [] (omega arith) tt

pub format_nat-ne-nil : (n : ℕ) → format_nat n ≢ []
unfolding format_nat
format_nat-ne-nil n = format_digits-ne-nil (suc n) n [] (omega arith)

read_nat-digits : (s : Text) → s ≢ [] → read_nat s ≡ read_digits 0 s
read_nat-digits [] h = absurd (h refl)
read_nat-digits (c ∷ s) h = refl

read_digits-format_nat : (n : ℕ) → read_digits 0 (format_nat n) ≡ some n
unfolding format_nat
read_digits-format_nat n = read_digits-format_digits (suc n) n [] (omega arith) ∙ read_end n
  where
    read_end : (n : ℕ) → read_digits n [] ≡ some n
    read_end n = unfold read_digits in refl

pub read_nat-format_nat : (n : ℕ) → read_nat (format_nat n) ≡ some n
read_nat-format_nat n =
    read_nat-digits (format_nat n) (format_nat-ne-nil n) ∙ read_digits-format_nat n

-- An `int` of 64 bits.
abbrev pub InRange : ℤ → Type 0
InRange (pos n) = n < 2 ^ 63
InRange (negsuc n) = n < 2 ^ 63

atoi-digits :
    (s : Text) (n : ℕ) → All IsDigit s → read_nat s ≡ some n → n < 2 ^ 63 → atoi s ≡ some (pos n)
unfolding atoi
atoi-digits [] n d e h = ground arith
atoi-digits (c ∷ s) n d e h = ground arith

atoi-minus :
    (s : Text) (n : ℕ) → read_nat s ≡ some (suc n) → n < 2 ^ 63 → atoi (b'-' ∷ s) ≡ some (negsuc n)
unfolding atoi
atoi-minus s n e h = ground arith

-- A printed `int` is read back as itself.
pub atoi-format_int : (z : ℤ) → InRange z → atoi (format_int z) ≡ some z
unfolding format_int
atoi-format_int (pos n) h =
    atoi-digits (format_nat n) n (format_nat-IsDigit n) (read_nat-format_nat n) h
atoi-format_int (negsuc n) h = atoi-minus (format_nat (suc n)) n (read_nat-format_nat (suc n)) h

pub atoi-format_nat : (n : ℕ) → n < 2 ^ 63 → atoi (format_nat n) ≡ some (pos n)
atoi-format_nat n h = atoi-digits (format_nat n) n (format_nat-IsDigit n) (read_nat-format_nat n) h
