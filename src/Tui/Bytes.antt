-- ===== src/Tui/Bytes.antt =====
-- bytesShort of internal/tui/tui.go: a count of bytes with one decimal and a unit.
use openconnectd.Base.{
  ℕ, zero, suc, ◌*◌, ◌/◌, ◌^◌, ◌≤◌, ◌<◌, ◌≡◌, [], ◌∷◌, ◌++◌, Text, codes, ltb, if◌then◌else◌, arith,
}
use openconnectd.Strings.{format_nat}

-- The loop on `n`, with `div` and `exp`; a uint64 is below 1024 when it has been divided six times.
scale : ℕ → ℕ → ℕ → ℕ → ℕ × ℕ
scale zero n div exp = (div, exp)
scale (suc fuel) n div exp =
    let rest = scale fuel (n / 1024) (div * 1024) (suc exp) in
    if ltb n 1024 then (div, exp) else rest

unfoldable pub scale_of : ℕ → ℕ × ℕ
unfolding scale
scale_of b = scale 6 (b / 1024) 1024 0

-- `"KMGTPE"[exp]`; the source panics behind the end, and the empty text stands for that.
unfoldable pub unit_of : ℕ → Text
unit_of exp = one (codes "KMGTPE") exp
  where
    one : Text → ℕ → Text
    one [] i = []
    one (c ∷ s) zero = c ∷ []
    one (c ∷ s) (suc i) = one s i

-- `format_1f a b` is `%.1f` of a / b.
unfoldable pub bytes_short : (ℕ → ℕ → Text) → ℕ → Text
bytes_short format_1f b =
    if ltb b 1024
    then format_nat b ++ codes "B"
    else (let (div, exp) = scale_of b in format_1f b div ++ unit_of exp ++ codes "B")

-- For every uint64 from 1024 on: the unit is one of the six, the divisor is the power of 1024 that the
-- unit stands for and no more than the count, so it does not overflow, and less than 1024 of it are there.
pub scale_of_lem :
    (b : ℕ)
    → 1024 ≤ b
    → b < 2 ^ 64
    → let (div, exp) = scale_of b in
      (exp < 6) × (div ≡ 1024 ^ suc exp) × (div ≤ b) × (b < 1024 * div)
unfolding scale_of scale
scale_of_lem b low high = ground arith
