-- ===== src/HttpApi/Url.antt =====
-- url.PathEscape, QueryEscape and their inverses, as pkg/api/client.go and the router of
-- internal/httpapi/server.go use them. A byte is below 256.
pub mod Laws
use openconnectd.Base.{
  ℕ, zero, suc, ◌+◌, ◌-◌, ◌*◌, ◌/◌, ◌%◌, Bool, true, false, ◌&&◌, ◌||◌, not, List, [], ◌∷◌, ◌++◌,
  Option, none, some, Text, leb, ltb, ◌==◌, any, if◌then◌else◌, concat, map, codes,
}

-- `upperhex[d]`
abbrev hex_digit : ℕ → ℕ
hex_digit d = if ltb d 10 then 48 + d else 55 + d

-- ishex and unhex
abbrev unhex : ℕ → Option ℕ
unhex c =
    if leb 48 c && leb c 57
    then some (c - 48)
    else if leb 97 c && leb c 102
    then some (c - 87)
    else if leb 65 c && leb c 70
    then some (c - 55)
    else none

abbrev is_unreserved : ℕ → Bool
is_unreserved c =
    (leb 97 c && leb c 122)
    || (leb 65 c && leb c 90)
    || (leb 48 c && leb c 57)
    || any (λ d. c == d) (codes "-_.~")

-- What url.PathEscape leaves as it is, and what url.QueryEscape does.
abbrev pub in_path : ℕ → Bool
in_path c = is_unreserved c || any (λ d. c == d) (codes "$&+:=@")

abbrev pub in_query : ℕ → Bool
in_query c = is_unreserved c

-- `spaces`: a space is written as a plus.
escape_byte : (ℕ → Bool) → Bool → ℕ → Text
escape_byte plain spaces c =
    if plain c
    then c ∷ []
    else if spaces && c == 32
    then b'+' ∷ []
    else b'%' ∷ hex_digit (c / 16) ∷ hex_digit (c % 16) ∷ []

escape : (ℕ → Bool) → Bool → Text → Text
unfolding escape_byte
escape plain spaces [] = []
escape plain spaces (c ∷ s) = escape_byte plain spaces c ++ escape plain spaces s

unfoldable pub path_escape : Text → Text
unfolding escape
path_escape s = escape in_path false s

unfoldable pub query_escape : Text → Text
unfolding escape
query_escape s = escape in_query true s

-- Where the reader stands: outside an escape, behind its percent sign, or behind its first digit.
pub data Place : Type 0 where
  outside : Place
  percent : Place
  first_digit : ℕ → Place

abbrev place_of : Option ℕ → Option (Place × Text)
place_of none = none
place_of (some h) = some (first_digit h, [])

abbrev byte_of : ℕ → Option ℕ → Option (Place × Text)
byte_of h none = none
byte_of h (some l) = some (outside, (16 * h + l) ∷ [])

advance : Bool → Place → ℕ → Option (Place × Text)
advance spaces outside c =
    if c == b'%'
    then some (percent, [])
    else if spaces && c == b'+'
    then some (outside, 32 ∷ [])
    else some (outside, c ∷ [])
advance spaces percent c = place_of (unhex c)
advance spaces (first_digit h) c = byte_of h (unhex c)

abbrev put_before : Text → Option Text → Option Text
put_before t none = none
put_before t (some s) = some (t ++ s)

-- An escape that is cut short, or has another digit, is an error.
read : Bool → Place → Text → Option Text
unfolding advance
read spaces outside [] = some []
read spaces percent [] = none
read spaces (first_digit h) [] = none
read spaces p (c ∷ s) = elim (advance spaces p c) [
  | none ↦ none
  | some (q, t) ↦ put_before t (read spaces q s)
]

unfoldable pub path_unescape : Text → Option Text
unfolding read
path_unescape s = read false outside s

unfoldable pub query_unescape : Text → Option Text
unfolding read
query_unescape s = read true outside s

abbrev cons_first : ℕ → List Text → List Text
cons_first c [] = (c ∷ []) ∷ []
cons_first c (s ∷ ss) = (c ∷ s) ∷ ss

-- strings.Split(s, string(b))
unfoldable pub split : ℕ → Text → List Text
split b [] = [] ∷ []
split b (c ∷ s) = let rest = split b s in if c == b then [] ∷ rest else cons_first c rest
