-- ===== src/Render/Emitted.antt =====
-- Texts without a newline, and a file that is written from such lines.
use openconnectd.Base.{
  ℕ, suc, ◌≡◌, refl, sym, ap, Bool, true, List, [], ◌∷◌, ◌++◌, map, append_assoc, append-nil, Text,
  arith, All, all, all-append, ◌&&◌, ◌==◌, if◌then◌else◌, is_nil, not, inl, inr, Option-cases,
}
use openconnectd.Base.Int.{ℤ, pos, negsuc}
use openconnectd.Strings.{format_int}
use openconnectd.Strings.Decimal.{format_nat}
use openconnectd.Strings.Decimal.Laws.{format_nat-IsDigit, IsDigit}
use openconnectd.Net.Ipv4.{format_ipv4}
use openconnectd.Net.Cidr.{parse_cidr}
use openconnectd.Errors.{ok}
use openconnectd.Render.{emit}
use openconnectd.Render.Network.{split_cidr}

abbrev pub newline : ℕ
newline = b'\n'

-- A text without a newline.
abbrev pub is_line : Text → Bool
is_line = all (λ c. not (c == newline))

abbrev pub IsLine : Text → Type 0
IsLine t = is_line t ≡ true

abbrev pub AreLines : List Text → Type 0
AreLines ls = all is_line ls ≡ true

-- The lines of a text; what stands behind the last newline is dropped if it is empty.
read_lines : Text → Text → List Text
read_lines line [] = if is_nil line then [] else line ∷ []
read_lines line (c ∷ s) =
    let next = line ∷ read_lines [] s in
    let same_line = read_lines (line ++ c ∷ []) s in if c == newline then next else same_line

unfoldable pub lines_of : Text → List Text
unfolding read_lines
lines_of = read_lines []

read_lines-append :
    (l rest line : Text)
    → IsLine l
    → read_lines line (l ++ newline ∷ rest) ≡ (line ++ l) ∷ read_lines [] rest
unfolding read_lines
read_lines-append [] rest line h = ap (λ t. t ∷ read_lines [] rest) (sym (append-nil line))
read_lines-append (c ∷ l) rest line h =
    ground (arith, read_lines-append l rest (line ++ c ∷ []), append_assoc line (c ∷ []) l)

pub lines_of-emit : (ls : List Text) → AreLines ls → lines_of (emit ls) ≡ ls
unfolding lines_of emit
lines_of-emit [] h = refl
lines_of-emit (l ∷ ls) h = ground (arith, read_lines-append l (emit ls) [], lines_of-emit ls)

pub is_line-append : (s t : Text) → is_line (s ++ t) ≡ (is_line s && is_line t)
is_line-append = all-append (λ c. not (c == newline))

digits-IsLine : (s : Text) → All IsDigit s → IsLine s
digits-IsLine [] h = refl
digits-IsLine (c ∷ s) (d, h) = ground (arith, digits-IsLine s h)

nat-IsLine : (n : ℕ) → IsLine (format_nat n)
nat-IsLine n = digits-IsLine (format_nat n) (format_nat-IsDigit n)

pub int-IsLine : (z : ℤ) → IsLine (format_int z)
unfolding format_int
int-IsLine (pos n) = nat-IsLine n
int-IsLine (negsuc n) = nat-IsLine (suc n)

pub ipv4-IsLine : (bytes : List ℕ) → IsLine (format_ipv4 bytes)
unfolding format_ipv4
ipv4-IsLine [] = refl
ipv4-IsLine (b ∷ []) = nat-IsLine b
ipv4-IsLine (b ∷ c ∷ bytes) = ground (
  arith,
  is_line-append (format_nat b) (b'.' ∷ format_ipv4 (c ∷ bytes)),
  nat-IsLine b,
  ipv4-IsLine (c ∷ bytes),
)

pub split_cidr-IsLine :
    (cidr network netmask : Text)
    → split_cidr cidr ≡ ok (network, netmask)
    → IsLine network × IsLine netmask
unfolding split_cidr
split_cidr-IsLine cidr network netmask e = elim (Option-cases (parse_cidr cidr)) [
  | inl bad ↦ ground arith
  | inr (net, good) ↦ ground (arith, ipv4-IsLine net.ip, ipv4-IsLine net.mask)
]

-- A key of letters before each value.
pub map-AreLines :
    (k : Text) (ls : List Text) → IsLine k → AreLines ls → AreLines (map (λ d. k ++ d) ls)
map-AreLines k [] p h = refl
map-AreLines k (l ∷ ls) p h = ground (arith, is_line-append k l, map-AreLines k ls)
