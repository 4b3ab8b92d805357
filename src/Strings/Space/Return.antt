-- ===== src/Strings/Space/Return.antt =====
-- A carriage return at the end of a text is trimmed.
use mathlib.Core.List.{reverse-append}
use openconnectd.Base.{
  ℕ, zero, suc, ◌≡◌, refl, ap, Bool, false, [], ◌∷◌, ◌++◌, reverse, Text, arith, ◌⊎◌, inl, inr,
  ℕ-cases,
}
use openconnectd.Strings.Space.{
  is_space2, is_space3, is_ascii_space, space_width, skip, trim_left, trim_right_reversed,
  trim_space,
}

-- No character ends in a carriage return, but the carriage return.
abbrev Ends : (ℕ → ℕ → Bool) → (ℕ → ℕ → ℕ → Bool) → Type 0
Ends two three = ((c : ℕ) → two c 13 ≡ false) × ((c d : ℕ) → three c d 13 ≡ false)

abbrev Kept : Text → Text → Type 0
Kept t s = (t ≡ s ++ 13 ∷ []) ⊎ ((t ≡ []) × (s ≡ []))

module _ (two : ℕ → ℕ → Bool) (three : ℕ → ℕ → ℕ → Bool) (ends : Ends two three) where
  width-return :
      (c : ℕ) (s : Text)
      → space_width two three (c ∷ (s ++ 13 ∷ [])) ≡ space_width two three (c ∷ s)
  unfolding space_width
  width-return c [] = ground (arith, ends.0 c)
  width-return c (d ∷ []) = ground (arith, ends.1 c d)
  width-return c (d ∷ e ∷ s) = refl

  skip-return : (n : ℕ) (s : Text) → Kept (skip two three n (s ++ 13 ∷ [])) (skip two three n s)
  unfolding skip space_width is_ascii_space
  skip-return zero [] = inr (refl, refl)
  skip-return (suc n) [] = inr (skip_nil n, refl)
    where
      skip_nil : (n : ℕ) → skip two three n [] ≡ []
      skip_nil zero = unfold skip in refl
      skip_nil (suc n) = unfold skip in refl
  skip-return (suc n) (c ∷ s) = skip-return n s
  skip-return zero (c ∷ s) = elim (ℕ-cases (space_width two three (c ∷ s))) [
    | inl e ↦ rw (width-return c s, e, skip) (inl refl)
    | inr (w, e) ↦ rw (width-return c s, e, skip) (skip-return w s)
  ]

width-return_first :
    (two : ℕ → ℕ → Bool) (three : ℕ → ℕ → ℕ → Bool) (s : Text) → space_width two three (13 ∷ s) ≡ 1
unfolding space_width is_ascii_space
width-return_first two three [] = refl
width-return_first two three (d ∷ []) = refl
width-return_first two three (d ∷ e ∷ s) = refl

trim_right-return : (s : Text) → trim_right_reversed (13 ∷ s) ≡ trim_right_reversed s
unfolding skip
trim_right-return s =
    rw (width-return_first (λ c d. is_space2 d c) (λ c d e. is_space3 e d c) s, skip) refl

trimmed-Kept :
    (t s : Text) → Kept t s → trim_right_reversed (reverse t) ≡ trim_right_reversed (reverse s)
trimmed-Kept t s (inl e) = rw (e, reverse-append s (13 ∷ [])) (trim_right-return (reverse s))
trimmed-Kept t s (inr (e, e')) = rw (e, e')

pub trim_space-return : (s : Text) → trim_space (s ++ 13 ∷ []) ≡ trim_space s
unfolding trim_space is_space2 is_space3
trim_space-return s = ap reverse (
    trimmed-Kept (trim_left (s ++ 13 ∷ [])) (trim_left s)
      (skip-return is_space2 is_space3 (λ c. ground arith, λ c d. ground arith) 0 s))
