-- ===== src/Net/Cidr.antt =====
-- net.ParseCIDR and net.ParseIP.
use Prim.Native.Nat.{bit_and}
use openconnectd.Base.{
  ℕ, zero, suc, ◌+◌, ◌-◌, ◌*◌, ◌/◌, ◌^◌, ◌≡◌, refl, Bool, true, false, ◌&&◌, List, [], ◌∷◌, Option,
  none, some, Text, codes, leb, ltb, ◌==◌, if◌then◌else◌, length, is_nil, take, drop,
}
use openconnectd.Strings.{index_byte}
use openconnectd.Strings.Decimal.{is_digit}
use openconnectd.Net.Ipv6.{Addr, v4, v6, parse_addr, addr_parser}

-- `dtoi` on a text that has to be digits to its end
dtoi : ℕ → Text → Option ℕ
dtoi n [] = some n
dtoi n (c ∷ s) =
    let n' = n * 10 + (c - b'0') in
    let rest = dtoi n' s in if is_digit c then (if leb 0xFFFFFF n' then none else rest) else none

prefix_length : Text → Option ℕ
unfolding dtoi
prefix_length [] = none
prefix_length (c ∷ s) = dtoi 0 (c ∷ s)

-- net.CIDRMask(n, 8 * len); a partial byte is `^byte(0xff >> n)`
unfoldable pub cidr_mask : ℕ → ℕ → List ℕ
cidr_mask zero n = []
cidr_mask (suc len) n =
    if leb 8 n then 255 ∷ cidr_mask len (n - 8) else (255 - 255 / 2 ^ n) ∷ cidr_mask len 0

-- IP.Mask, for an address and a mask of one length
unfoldable pub mask_bytes : List ℕ → List ℕ → List ℕ
mask_bytes (a ∷ as') (m ∷ ms) = bit_and a m ∷ mask_bytes as' ms
mask_bytes as' ms = []

-- net.IPNet
pub record IpNet : Type 0 where
  pub ip : List ℕ
  pub mask : List ℕ

block : List ℕ → Text → Option IpNet
unfolding prefix_length
block bytes mask_text = elim (prefix_length mask_text) [
  | none ↦ none
  | some n ↦
      if ltb (8 * length bytes) n
      then none
      else let m = cidr_mask (length bytes) n in some (record { ip = mask_bytes bytes m; mask = m })
]

of_addr : Option Addr → Text → Option IpNet
unfolding block
of_addr none mask_text = none
of_addr (some (v4 bytes)) mask_text = block bytes mask_text
of_addr (some (v6 bytes zone)) mask_text = if is_nil zone then block bytes mask_text else none

-- net.ParseCIDR, without the address that its callers drop
unfoldable pub parse_cidr : Text → Option IpNet
unfolding of_addr
parse_cidr s = elim (index_byte s b'/') [
  | none ↦ none
  | some i ↦ of_addr (parse_addr (take i s)) (drop (suc i) s)
]

abbrev v4_in_v6_prefix : List ℕ
v4_in_v6_prefix = 0 ∷ 0 ∷ 0 ∷ 0 ∷ 0 ∷ 0 ∷ 0 ∷ 0 ∷ 0 ∷ 0 ∷ 0xff ∷ 0xff ∷ []

same_bytes : List ℕ → List ℕ → Bool
same_bytes [] [] = true
same_bytes (c ∷ s) (d ∷ t) = c == d && same_bytes s t
same_bytes _ _ = false

-- IP.To4 of the address that net.ParseIP reads; `none` if it reads none, or if it is not IPv4
unfoldable pub parse_ip_to4 : Text → Option (List ℕ)
unfolding same_bytes
parse_ip_to4 s = elim (parse_addr s) [
  | none ↦ none
  | some (v4 bytes) ↦ some bytes
  | some (v6 bytes zone) ↦
      if is_nil zone && same_bytes (take 12 bytes) v4_in_v6_prefix
      then some (drop 12 bytes)
      else none
]

cidrs :
    (parse_cidr (codes "10.20.30.40/20")
      ≡ some (record { ip = 10 ∷ 20 ∷ 16 ∷ 0 ∷ []; mask = 255 ∷ 255 ∷ 240 ∷ 0 ∷ [] }))
    × (parse_cidr (codes "10.20.30.40/33") ≡ none)
    × (parse_cidr (codes "10.20.30.40") ≡ none)
    × (parse_ip_to4 (codes "::ffff:10.0.0.5") ≡ some (10 ∷ 0 ∷ 0 ∷ 5 ∷ []))
    × (parse_ip_to4 (codes "::1") ≡ none)
unfolding parse_cidr parse_ip_to4 cidr_mask mask_bytes addr_parser
cidrs = (refl, refl, refl, refl, refl)
