-- ===== src/Strings/Space/Laws.antt =====
-- What is trimmed once stays as it is.
use mathlib.Core.List.{reverse-append, reverse-reverse}
use openconnectd.Base.{
  ℕ, zero, suc, ◌≡◌, refl, sym, ap, Bool, [], ◌∷◌, ◌++◌, reverse, Text, arith, ◌∙◌, inl, inr,
  ℕ-cases, leb, all, all-reverse, true, false, ◌&&◌,
}
use openconnectd.Strings.Space.{
  is_space2, is_space3, is_ascii_space, space_width, skip, trim_left, trim_right_reversed,
  trim_space,
}

module _ (two : ℕ → ℕ → Bool) (three : ℕ → ℕ → ℕ → Bool) where
  space_width-skip : (n : ℕ) (s : Text) → space_width two three (skip two three n s) ≡ 0
  unfolding skip
  space_width-skip zero [] = refl
  space_width-skip (suc n) [] = refl
  space_width-skip (suc n) (c ∷ s) = space_width-skip n s
  space_width-skip zero (c ∷ s) = elim (ℕ-cases (space_width two three (c ∷ s))) [
    | inl e ↦ rw (e, skip) e
    | inr (w, e) ↦ rw (e, skip) (space_width-skip w s)
  ]

  skip-of-width : (s : Text) → space_width two three s ≡ 0 → skip two three 0 s ≡ s
  unfolding skip
  skip-of-width [] h = refl
  skip-of-width (c ∷ s) h = ground arith

  skip-suffix : (n : ℕ) (s : Text) → (p : Text) × (s ≡ p ++ skip two three n s)
  unfolding skip
  skip-suffix zero [] = ([], refl)
  skip-suffix (suc n) [] = ([], refl)
  skip-suffix (suc n) (c ∷ s) = let (p, e) = skip-suffix n s in (c ∷ p, ap (λ t. c ∷ t) e)
  skip-suffix zero (c ∷ s) = elim (ℕ-cases (space_width two three (c ∷ s))) [
    | inl e ↦ ([], rw (e, skip))
    | inr (w, e) ↦ let (p, h) = skip-suffix w s in (c ∷ p, rw (e, skip) (ap (λ t. c ∷ t) h))
  ]

  space_width-append :
      (p q : Text) → space_width two three (p ++ q) ≡ 0 → space_width two three p ≡ 0
  unfolding space_width
  space_width-append [] q h = refl
  space_width-append (c ∷ []) [] h = h
  space_width-append (c ∷ []) (d ∷ []) h = ground arith
  space_width-append (c ∷ []) (d ∷ e ∷ q) h = ground arith
  space_width-append (c ∷ d ∷ []) [] h = h
  space_width-append (c ∷ d ∷ []) (e ∷ q) h = ground arith
  space_width-append (c ∷ d ∷ e ∷ p) q h = h

  -- Trimming the front of a front part of a trimmed text changes nothing.
  skip-prefix : (p q : Text) → space_width two three (p ++ q) ≡ 0 → skip two three 0 p ≡ p
  skip-prefix p q h = skip-of-width p (space_width-append p q h)

trim_left_width : (s : Text) → space_width is_space2 is_space3 (trim_left s) ≡ 0
trim_left_width s = space_width-skip is_space2 is_space3 0 s

-- The trimmed text is a front part of the text with its front trimmed.
trim_space-prefix : (s : Text) → (q : Text) × (trim_left s ≡ trim_space s ++ q)
unfolding trim_space
trim_space-prefix s =
    let (p, e) =
      skip-suffix (λ c d. is_space2 d c) (λ c d e. is_space3 e d c) 0 (reverse (trim_left s)) in
    (reverse p, sym (reverse-reverse (trim_left s)) ∙ ap reverse e ∙ reverse-append p _)

trim_left-trim_space : (s : Text) → trim_left (trim_space s) ≡ trim_space s
trim_left-trim_space s =
    let (q, e) = trim_space-prefix s in
    skip-prefix is_space2 is_space3 (trim_space s) q (rw (← e) (trim_left_width s))

trim_right_reversed_idem :
    (s : Text) → trim_right_reversed (trim_right_reversed s) ≡ trim_right_reversed s
trim_right_reversed_idem s =
    let two : ℕ → ℕ → Bool = λ c d. is_space2 d c in
    let three : ℕ → ℕ → ℕ → Bool = λ c d e. is_space3 e d c in
    skip-of-width two three (trim_right_reversed s) (space_width-skip two three 0 s)

trim_space_step : (s : Text) → trim_space s ≡ reverse (trim_right_reversed (reverse (trim_left s)))
unfolding trim_space
trim_space_step s = refl

-- Trimming twice is trimming once.
pub trim_space_idem : (s : Text) → trim_space (trim_space s) ≡ trim_space s
trim_space_idem s =
    let r = trim_right_reversed (reverse (trim_left s)) in
    trim_space_step (trim_space s)
    ∙ ap (λ t. reverse (trim_right_reversed (reverse t))) (trim_left-trim_space s)
    ∙ ap (λ t. reverse (trim_right_reversed t)) (ap reverse (trim_space_step s) ∙ reverse-reverse r)
    ∙ ap reverse (trim_right_reversed_idem (reverse (trim_left s)))
    ∙ sym (trim_space_step s)

-- Printable ASCII but for the space.
abbrev pub is_visible : ℕ → Bool
is_visible c = leb 33 c && leb c 126

visible-width :
    (two : ℕ → ℕ → Bool) (three : ℕ → ℕ → ℕ → Bool) (s : Text)
    → ((c d : ℕ) → is_visible c ≡ true → two c d ≡ false)
    → ((c d e : ℕ) → is_visible c ≡ true → three c d e ≡ false)
    → all is_visible s ≡ true
    → space_width two three s ≡ 0
unfolding space_width is_ascii_space
visible-width two three [] no2 no3 h = refl
visible-width two three (c ∷ []) no2 no3 h = ground arith
visible-width two three (c ∷ d ∷ []) no2 no3 h = ground (arith, no2 c d)
visible-width two three (c ∷ d ∷ e ∷ s) no2 no3 h = ground (arith, no2 c d, no3 c d e)

-- There is nothing to trim off a text without white space.
pub trim_space-visible : (s : Text) → all is_visible s ≡ true → trim_space s ≡ s
unfolding is_space2 is_space3
trim_space-visible s h =
    let two : ℕ → ℕ → Bool = λ c d. is_space2 d c in
    let three : ℕ → ℕ → ℕ → Bool = λ c d e. is_space3 e d c in
    let left : trim_left s ≡ s =
      skip-of-width is_space2 is_space3 s
        (visible-width is_space2 is_space3 s (λ c d v. ground arith) (λ c d e v. ground arith) h) in
    let right : trim_right_reversed (reverse s) ≡ reverse s = skip-of-width two three (reverse s) (
      visible-width two three (reverse s) (λ c d v. ground arith) (λ c d e v. ground arith)
        (all-reverse is_visible s h)) in
    trim_space_step s
    ∙ ap (λ t. reverse (trim_right_reversed (reverse t))) left
    ∙ ap reverse right
    ∙ reverse-reverse s
