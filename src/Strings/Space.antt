-- ===== src/Strings/Space.antt =====
-- strings.TrimSpace: white space is the Unicode property, read off its UTF-8 encoding.
pub mod Laws
pub mod Return
use openconnectd.Base.{
  ℕ, zero, suc, Bool, ◌&&◌, ◌||◌, [], ◌∷◌, reverse, Text, leb, ◌==◌, if◌then◌else◌, is_nil,
}

-- '\t' '\n' '\v' '\f' '\r' and ' '
is_ascii_space : ℕ → Bool
is_ascii_space c = (leb 9 c && leb c 13) || c == 32

-- U+0085 and U+00A0
is_space2 : ℕ → ℕ → Bool
is_space2 c d = c == 0xC2 && (d == 0x85 || d == 0xA0)

-- U+1680, U+2000 to U+200A, U+2028, U+2029, U+202F, U+205F and U+3000
is_space3 : ℕ → ℕ → ℕ → Bool
is_space3 c d e =
    (c == 0xE1 && d == 0x9A && e == 0x80)
    || (c == 0xE2
        && d == 0x80
        && ((leb 0x80 e && leb e 0x8A) || e == 0xA8 || e == 0xA9 || e == 0xAF))
    || (c == 0xE2 && d == 0x81 && e == 0x9F)
    || (c == 0xE3 && d == 0x80 && e == 0x80)

module _ (two : ℕ → ℕ → Bool) (three : ℕ → ℕ → ℕ → Bool) where
  -- The number of bytes of the white-space character that the text begins with, or 0.
  space_width : Text → ℕ
  unfolding is_ascii_space
  space_width [] = 0
  space_width (c ∷ []) = if is_ascii_space c then 1 else 0
  space_width (c ∷ d ∷ []) = if is_ascii_space c then 1 else if two c d then 2 else 0
  space_width (c ∷ d ∷ e ∷ s) =
      if is_ascii_space c then 1 else if two c d then 2 else if three c d e then 3 else 0

  -- The first `n` bytes go, and then every white-space character at the front.
  skip : ℕ → Text → Text
  unfolding space_width
  skip n [] = []
  skip (suc n) (c ∷ s) = skip n s
  skip zero (c ∷ s) = elim (space_width (c ∷ s)) [ zero ↦ c ∷ s | suc w ↦ skip w s ]

-- The character at the front of the text, and the one at the end, of the reversed text.
abbrev trim_left : Text → Text
trim_left = skip is_space2 is_space3 0

abbrev trim_right_reversed : Text → Text
trim_right_reversed = skip (λ c d. is_space2 d c) (λ c d e. is_space3 e d c) 0

unfoldable pub trim_space : Text → Text
unfolding skip is_space2 is_space3
trim_space s = reverse (trim_right_reversed (reverse (trim_left s)))

-- `strings.TrimSpace(s) == ""`
abbrev pub is_blank : Text → Bool
is_blank s = is_nil (trim_space s)
