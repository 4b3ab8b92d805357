-- ===== src/Net/Ipv4/Laws.antt =====
-- Every printed IPv4 address is read back as itself.
use openconnectd.Base.{◌&&◌}
use openconnectd.Base.{
  same, same_iff, ℕ, zero, suc, ◌+◌, ◌/◌, ◌%◌, ◌<◌, ◌≡◌, ◌≢◌, refl, Bool, true, false, List, [],
  ◌∷◌, ◌++◌, some, Text, ltb, if◌then◌else◌, length, arith, ◌∙◌, ap, sym, append-nil,
}
use openconnectd.Strings.Decimal.{format_nat}
use openconnectd.Strings.Decimal.Laws.{format_nat-ne-nil}
use openconnectd.Net.Ipv4.{dot, read_fields, parse_ipv4, format_ipv4}

-- The digits of a byte, one to three.
digits_of : ℕ → Text
digits_of x =
    if ltb x 10
    then (b'0' + x) ∷ []
    else if ltb x 100
    then (b'0' + x / 10) ∷ (b'0' + x % 10) ∷ []
    else (b'0' + x / 100) ∷ (b'0' + x / 10 % 10) ∷ (b'0' + x % 10) ∷ []

holds_up_to : (ℕ → Bool) → ℕ → Bool
holds_up_to test zero = true
holds_up_to test (suc bound) = test bound && holds_up_to test bound

holds_at :
    (test : ℕ → Bool) (bound x : ℕ) → x < bound → holds_up_to test bound ≡ true → test x ≡ true
unfolding holds_up_to
holds_at test zero x below table = absurd (omega arith)
holds_at test (suc bound) x below table = ground (arith, holds_at test bound x)

width_of : ℕ → ℕ
width_of x = if ltb x 10 then 1 else if ltb x 100 then 2 else 3

read_digits_of :
    (x : ℕ) (fields : List ℕ) (t : Text)
    → x < 256
    → read_fields true 0 0 fields (digits_of x ++ t) ≡ read_fields false x (width_of x) fields t
unfolding read_fields digits_of width_of
read_digits_of x fields t h = ground arith

digits_of_table : holds_up_to (λ x. same (format_nat x) (digits_of x)) 256 ≡ true
unfolding holds_up_to same format_nat digits_of
digits_of_table = refl

format_nat-eq-digits_of : (x : ℕ) → x < 256 → format_nat x ≡ digits_of x
format_nat-eq-digits_of x h =
    (same_iff (format_nat x) (digits_of x)).0
      (holds_at (λ y. same (format_nat y) (digits_of y)) 256 x h digits_of_table)

-- One byte of the text is read, whatever follows.
read_byte :
    (x : ℕ) (fields : List ℕ) (t : Text)
    → x < 256
    → read_fields true 0 0 fields (format_nat x ++ t) ≡ read_fields false x (width_of x) fields t
read_byte x fields t h = rw (format_nat-eq-digits_of x h) (read_digits_of x fields t h)

read_dot :
    (x w : ℕ) (fields : List ℕ) (t : Text)
    → length fields < 3
    → t ≢ []
    → read_fields false x w fields (dot ∷ t) ≡ read_fields true 0 0 (fields ++ x ∷ []) t
unfolding read_fields
read_dot x w fields [] h ne = absurd (ne refl)
read_dot x w fields (c ∷ t) h ne = ground arith

read_field :
    (x : ℕ) (fields : List ℕ) (t : Text)
    → x < 256
    → length fields < 3
    → t ≢ []
    → read_fields true 0 0 fields (format_nat x ++ dot ∷ t)
      ≡ read_fields true 0 0 (fields ++ x ∷ []) t
read_field x fields t small few more =
    read_byte x fields (dot ∷ t) small ∙ read_dot x (width_of x) fields t few more

read_end :
    (x w : ℕ) (fields : List ℕ)
    → length fields ≡ 3
    → read_fields false x w fields [] ≡ some (fields ++ x ∷ [])
unfolding read_fields
read_end x w fields h = ground arith

read_last_field :
    (x : ℕ) (fields : List ℕ)
    → x < 256
    → length fields ≡ 3
    → read_fields true 0 0 fields (format_nat x) ≡ some (fields ++ x ∷ [])
read_last_field x fields small three =
    ap (read_fields true 0 0 fields) (sym (append-nil (format_nat x)))
    ∙ read_byte x fields [] small
    ∙ read_end x (width_of x) fields three

append-ne-nil : (s t : Text) → s ≢ [] → s ++ t ≢ []
append-ne-nil [] t h = absurd (h refl)
append-ne-nil (c ∷ s) t h = ground arith

format_ipv4-ne-nil : (x : ℕ) (bs : List ℕ) → format_ipv4 (x ∷ bs) ≢ []
unfolding format_ipv4
format_ipv4-ne-nil x [] = format_nat-ne-nil x
format_ipv4-ne-nil x (y ∷ bs) =
    append-ne-nil (format_nat x) (dot ∷ format_ipv4 (y ∷ bs)) (format_nat-ne-nil x)

-- A printed address is read back as itself.
pub parse_ipv4-format_ipv4 :
    (a b c d : ℕ)
    → a < 256
    → b < 256
    → c < 256
    → d < 256
    → parse_ipv4 (format_ipv4 (a ∷ b ∷ c ∷ d ∷ [])) ≡ some (a ∷ b ∷ c ∷ d ∷ [])
unfolding parse_ipv4 format_ipv4
parse_ipv4-format_ipv4 a b c d ha hb hc hd =
    read_field a [] (format_ipv4 (b ∷ c ∷ d ∷ [])) ha (omega arith)
      (format_ipv4-ne-nil b (c ∷ d ∷ []))
    ∙ read_field b (a ∷ []) (format_ipv4 (c ∷ d ∷ [])) hb (omega arith)
        (format_ipv4-ne-nil c (d ∷ []))
    ∙ read_field c (a ∷ b ∷ []) (format_ipv4 (d ∷ [])) hc (omega arith) (format_ipv4-ne-nil d [])
    ∙ read_last_field d (a ∷ b ∷ c ∷ []) hd refl
