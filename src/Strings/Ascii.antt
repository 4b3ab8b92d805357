-- ===== src/Strings/Ascii.antt =====
-- strings.ToLower and strings.Trim, on ASCII. A letter beyond ASCII is left as it is: no such letter has
-- one of the letters of the texts as its lower case, with which the program compares what it lowers.
use openconnectd.Base.{ℕ, ◌+◌, ◌&&◌, [], ◌∷◌, reverse, map, Text, leb, ◌==◌, if◌then◌else◌}

lower : ℕ → ℕ
lower c = if leb 65 c && leb c 90 then c + 32 else c

-- strings.ToLower
unfoldable pub to_lower : Text → Text
unfolding lower
to_lower s = map lower s

trim_left_byte : ℕ → Text → Text
trim_left_byte b [] = []
trim_left_byte b (c ∷ s) = let rest = trim_left_byte b s in if c == b then rest else c ∷ s

-- strings.Trim(s, string(b))
unfoldable pub trim_byte : ℕ → Text → Text
unfolding trim_left_byte
trim_byte b s = reverse (trim_left_byte b (reverse (trim_left_byte b s)))
