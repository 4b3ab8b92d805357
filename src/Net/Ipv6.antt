-- ===== src/Net/Ipv6.antt =====
-- netip.ParseAddr: IPv6 addresses with an ellipsis, a trailing IPv4 part and a zone.
use openconnectd.Base.{
  ℕ, zero, suc, ◌+◌, ◌-◌, ◌*◌, ◌/◌, ◌%◌, Bool, false, ◌&&◌, not, List, [], ◌∷◌, ◌++◌, Option, none,
  some, Text, leb, ltb, ◌==◌, if◌then◌else◌, length, is_nil, take, drop, is_some, ◌≡◌, refl, codes,
}
use openconnectd.Strings.{index_byte}
use openconnectd.Net.Ipv4.{parse_ipv4}

hex_value : ℕ → Option ℕ
hex_value c =
    if leb b'0' c && leb c b'9'
    then some (c - b'0')
    else if leb b'a' c && leb c b'f'
    then some (c - b'a' + 10)
    else if leb b'A' c && leb c b'F'
    then some (c - b'A' + 10)
    else none

-- The digits of one group: their number, their value, and the rest of the text. At most four: then
-- the value is below 2^16.
read_hex : ℕ → ℕ → Text → Option (ℕ × ℕ × Text)
unfolding hex_value
read_hex off acc [] = some (off, acc, [])
read_hex off acc (c ∷ s) = elim (hex_value c) [
  | none ↦ some (off, acc, c ∷ s)
  | some d ↦ if ltb 3 off then none else read_hex (suc off) (acc * 16 + d) s
]

abbrev pub Groups : Type 0
Groups = List ℕ × Option ℕ × Text

-- What follows one group, `bytes` being those read so far: the end, or a colon and more, or `::`.
pub data After : Type 0 where
  stop : Option Groups → After
  more : Option ℕ → Text → After

after_colon : List ℕ → Option ℕ → Text → After
after_colon bytes ellipsis [] = stop none
after_colon bytes ellipsis (c ∷ s) =
    if c == b':'
    then (if is_some ellipsis
        then stop none
        else if is_nil s
        then stop (some (bytes, some (length bytes), []))
        else more (some (length bytes)) s)
    else more ellipsis (c ∷ s)

after_group : List ℕ → Option ℕ → Text → After
unfolding after_colon
after_group bytes ellipsis [] = stop (some (bytes, ellipsis, []))
after_group bytes ellipsis (c ∷ s) = if c == b':' then after_colon bytes ellipsis s else stop none

-- The trailing IPv4 part; `s` begins with its first digit.
trailing_ipv4 : List ℕ → Option ℕ → Text → Option Groups
unfolding parse_ipv4
trailing_ipv4 bytes ellipsis s =
    if not (is_some ellipsis) && not (length bytes == 12)
    then none
    else if ltb 12 (length bytes)
    then none
    else elim (parse_ipv4 s) [ none ↦ none | some fields ↦ some (bytes ++ fields, ellipsis, []) ]

starts_with_dot : Text → Bool
starts_with_dot [] = false
starts_with_dot (c ∷ s) = c == b'.'

-- `for i < 16`: eight groups at most, so the fuel is 8.
read_groups : ℕ → List ℕ → Option ℕ → Text → Option Groups
unfolding read_hex after_group trailing_ipv4 starts_with_dot
read_groups zero bytes ellipsis s = some (bytes, ellipsis, s)
read_groups (suc f) bytes ellipsis s = elim (read_hex 0 0 s) [
  | none ↦ none
  | some (off, acc, rest) ↦
      if off == 0
      then none
      else if starts_with_dot rest
      then trailing_ipv4 bytes ellipsis s
      else let bytes' = bytes ++ (acc / 256) ∷ (acc % 256) ∷ [] in
        elim (after_group bytes' ellipsis rest) [ stop r ↦ r | more e t ↦ read_groups f bytes' e t ]
]

zeros : ℕ → List ℕ
zeros zero = []
zeros (suc n) = 0 ∷ zeros n

-- The whole text is used, and the ellipsis stands for the bytes that are missing.
expand : Groups → Option (List ℕ)
unfolding zeros
expand (bytes, ellipsis, rest) =
    if not (is_nil rest)
    then none
    else if ltb (length bytes) 16
    then elim ellipsis [
      | none ↦ none
      | some e ↦ some (take e bytes ++ zeros (16 - length bytes) ++ drop e bytes)
    ]
    else if is_some ellipsis
    then none
    else some bytes

-- The text before the zone, and the zone; `none` if the zone is empty.
split_zone : Text → Option (Text × Text)
split_zone s = elim (index_byte s b'%') [
  | none ↦ some (s, [])
  | some i ↦ let zone = drop (suc i) s in if is_nil zone then none else some (take i s, zone)
]

-- Behind a leading `::` there may be nothing.
read_address : Text → Option (List ℕ)
unfolding read_groups expand
read_address (c ∷ d ∷ s) =
    if c == b':' && d == b':'
    then (if is_nil s
        then some (zeros 16)
        else elim (read_groups 8 [] (some 0) s) [ none ↦ none | some g ↦ expand g ])
    else elim (read_groups 8 [] none (c ∷ d ∷ s)) [ none ↦ none | some g ↦ expand g ]
read_address s = elim (read_groups 8 [] none s) [ none ↦ none | some g ↦ expand g ]

-- netip.Addr: the bytes, and the zone.
pub data Addr : Type 0 where
  v4 : List ℕ → Addr
  v6 : List ℕ → Text → Addr

-- netip.parseIPv6
parse_ipv6 : Text → Option Addr
unfolding read_address split_zone
parse_ipv6 s = elim (split_zone s) [
  | none ↦ none
  | some (t, zone) ↦ elim (read_address t) [ none ↦ none | some bytes ↦ some (v6 bytes zone) ]
]

-- The first of `.`, `:` and `%` says which kind of address it is.
choose_kind : Text → Text → Option Addr
unfolding parse_ipv6
choose_kind [] whole = none
choose_kind (c ∷ s) whole =
    let rest = choose_kind s whole in
    if c == b'.'
    then elim (parse_ipv4 whole) [ none ↦ none | some bytes ↦ some (v4 bytes) ]
    else if c == b':'
    then parse_ipv6 whole
    else if c == b'%'
    then none
    else rest

-- netip.ParseAddr
unfoldable pub parse_addr : Text → Option Addr
unfolding choose_kind
parse_addr s = choose_kind s s

-- `parse_addr` with nothing to look up, for tests.
unfoldable pub addr_parser : Unit {0}
unfolding parse_addr parse_ipv4 index_byte
addr_parser = tt

loopback : parse_addr (codes "::1") ≡ some (v6 (zeros 15 ++ 1 ∷ []) [])
unfolding addr_parser
loopback = refl

mapped :
    parse_addr (codes "::ffff:10.0.0.5")
    ≡ some (v6 (zeros 10 ++ 255 ∷ 255 ∷ 10 ∷ 0 ∷ 0 ∷ 5 ∷ []) [])
unfolding addr_parser
mapped = refl

inner_ellipsis :
    parse_addr (codes "2001:db8::1:0%eth0")
    ≡ some (v6 (0x20 ∷ 1 ∷ 0xd ∷ 0xb8 ∷ zeros 9 ++ 1 ∷ 0 ∷ 0 ∷ []) (codes "eth0"))
unfolding addr_parser
inner_ellipsis = refl

bad_addresses :
    (parse_addr (codes "1:2:3:4:5:6:7::8") ≡ none)
    × (parse_addr (codes "1::2::3") ≡ none)
    × (parse_addr (codes "12345::") ≡ none)
    × (parse_addr (codes "10.0.0.256") ≡ none)
    × (parse_addr (codes "10.0.0.01") ≡ none)
    × (parse_addr (codes "10.0.0") ≡ none)
unfolding addr_parser
bad_addresses = (refl, refl, refl, refl, refl, refl)
