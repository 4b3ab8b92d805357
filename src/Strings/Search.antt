-- ===== src/Strings/Search.antt =====
-- strings.HasPrefix, Contains, IndexByte, LastIndex and ContainsAny, as `internal/` calls them.
use openconnectd.Base.{
  ℕ, suc, ◌≡◌, refl, Bool, true, false, ◌&&◌, ◌||◌, [], ◌∷◌, ◌++◌, Option, none, some, arith, Text,
  ◌==◌, if◌then◌else◌, any, all, not, length, ==_iff,
}

unfoldable pub has_prefix : Text → Text → Bool
has_prefix s [] = true
has_prefix [] (d ∷ p) = false
has_prefix (c ∷ s) (d ∷ p) = c == d && has_prefix s p

-- strings.Contains(s, sub)
unfoldable pub contains : Text → Text → Bool
unfolding has_prefix
contains [] sub = has_prefix [] sub
contains (c ∷ s) sub = has_prefix (c ∷ s) sub || contains s sub

bump : Option ℕ → Option ℕ
bump none = none
bump (some i) = some (suc i)

-- strings.IndexByte(s, b); `none` is -1
unfoldable pub index_byte : Text → ℕ → Option ℕ
unfolding bump
index_byte [] b = none
index_byte (c ∷ s) b = if c == b then some 0 else bump (index_byte s b)

later : Bool → Option ℕ → Option ℕ
later here (some i) = some (suc i)
later true none = some 0
later false none = none

-- strings.LastIndex(s, string(b))
unfoldable pub last_index_byte : Text → ℕ → Option ℕ
unfolding later
last_index_byte [] b = none
last_index_byte (c ∷ s) b = later (c == b) (last_index_byte s b)

-- strings.ContainsAny(s, chars) for ASCII `chars`
unfoldable pub contains_any : Text → Text → Bool
contains_any s chars = any (λ c. any (λ d. c == d) chars) s

pub has_prefix-append : (p s : Text) → has_prefix (p ++ s) p ≡ true
unfolding has_prefix
has_prefix-append [] [] = refl
has_prefix-append [] (d ∷ s) = refl
has_prefix-append (c ∷ p) s = ground (arith, has_prefix-append p s)

contains-prefix : (s p : Text) → has_prefix s p ≡ true → contains s p ≡ true
unfolding contains
contains-prefix [] p h = h
contains-prefix (c ∷ s) p h = rw h

contains-cons : (c : ℕ) (s p : Text) → contains s p ≡ true → contains (c ∷ s) p ≡ true
unfolding contains
contains-cons c s p h = ground arith

-- A text contains what it was built around.
pub contains-append : (a p b : Text) → contains (a ++ p ++ b) p ≡ true
contains-append [] p b = contains-prefix (p ++ b) p (has_prefix-append p b)
contains-append (c ∷ a) p b = contains-cons c (a ++ p ++ b) p (contains-append a p b)

pub index_byte-none : (b : ℕ) (s : Text) → all (λ c. not (c == b)) s ≡ true → index_byte s b ≡ none
unfolding index_byte
index_byte-none b [] h = refl
index_byte-none b (c ∷ s) h = ground (arith, index_byte-none b s)

last_index_byte-none :
    (b : ℕ) (s : Text) → all (λ c. not (c == b)) s ≡ true → last_index_byte s b ≡ none
unfolding last_index_byte
last_index_byte-none b [] h = refl
last_index_byte-none b (c ∷ s) h = ground (arith, last_index_byte-none b s)

-- The last place of a byte that does not come again.
pub last_index_byte-split :
    (b : ℕ) (s t : Text)
    → all (λ c. not (c == b)) t ≡ true
    → last_index_byte (s ++ b ∷ t) b ≡ some (length s)
unfolding last_index_byte
last_index_byte-split b [] t h = ground (arith, last_index_byte-none b t h, ==_iff b b)
last_index_byte-split b (c ∷ s) t h = ground (arith, last_index_byte-split b s t h)
