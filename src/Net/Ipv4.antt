-- ===== src/Net/Ipv4.antt =====
-- Dotted IPv4 addresses: netip.parseIPv4Fields and IP.String. An address is its list of bytes.
pub mod Laws
use openconnectd.Base.{
  ℕ, suc, ◌+◌, ◌-◌, ◌*◌, Bool, true, false, ◌&&◌, ◌||◌, List, [], ◌∷◌, ◌++◌, Option, none, some,
  Text, leb, ltb, ◌==◌, if◌then◌else◌, length, is_nil,
}
use openconnectd.Strings.Decimal.{format_nat, is_digit}

abbrev dot : ℕ
dot = b'.'

-- The loop over the text. `fresh`: at the start, or behind a dot; `value` and `digits` are those of
-- the current field, `fields` the ones before it.
unfoldable pub read_fields : Bool → ℕ → ℕ → List ℕ → Text → Option (List ℕ)
read_fields fresh value digits fields [] =
    if ltb (length fields) 3 then none else some (fields ++ value ∷ [])
read_fields fresh value digits fields (c ∷ s) =
    let value' = value * 10 + (c - b'0') in
    let digit = read_fields false value' (suc digits) fields s in
    let next = read_fields true 0 0 (fields ++ value ∷ []) s in
    if is_digit c
    then (if digits == 1 && value == 0 then none else if ltb 255 value' then none else digit)
    else if c == dot
    then (if fresh || is_nil s then none else if length fields == 3 then none else next)
    else none

unfoldable pub parse_ipv4 : Text → Option (List ℕ)
unfolding read_fields
parse_ipv4 = read_fields true 0 0 []

-- `String` of a four-byte address.
unfoldable pub format_ipv4 : List ℕ → Text
format_ipv4 [] = []
format_ipv4 (b ∷ []) = format_nat b
format_ipv4 (b ∷ c ∷ bs) = format_nat b ++ dot ∷ format_ipv4 (c ∷ bs)
