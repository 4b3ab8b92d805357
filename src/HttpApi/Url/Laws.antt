-- ===== src/HttpApi/Url/Laws.antt =====
-- What url.PathEscape and url.QueryEscape write is read back, and has no separator in it.
use openconnectd.Base.{
  ℕ, ◌≡◌, ◌<◌, ◌/◌, ◌%◌, refl, Bool, true, false, ◌&&◌, not, [], ◌∷◌, ◌++◌, some, Text, All, all,
  all-append, arith, ◌==◌, ==_iff,
}
use openconnectd.HttpApi.Url.{
  escape_byte, escape, path_escape, query_escape, advance, read, outside, path_unescape,
  query_unescape, put_before, in_path, in_query, split, hex_digit, unhex,
}

abbrev pub AreBytes : Text → Type 0
AreBytes s = All (λ c. c < 256) s

unhex-hex_digit : (d : ℕ) → d < 16 → unhex (hex_digit d) ≡ some d
unhex-hex_digit d h = ground arith

read-path_byte :
    (c : ℕ) (s : Text)
    → c < 256
    → read false outside (escape_byte in_path false c ++ s)
      ≡ put_before (c ∷ []) (read false outside s)
unfolding read escape_byte advance
read-path_byte c s h = ground (arith, unhex-hex_digit (c / 16), unhex-hex_digit (c % 16))

read-query_byte :
    (c : ℕ) (s : Text)
    → c < 256
    → read true outside (escape_byte in_query true c ++ s)
      ≡ put_before (c ∷ []) (read true outside s)
unfolding read escape_byte advance
read-query_byte c s h = ground (arith, unhex-hex_digit (c / 16), unhex-hex_digit (c % 16))

read-escape :
    (plain : ℕ → Bool) (spaces : Bool) (s : Text)
    → ((c : ℕ) (t : Text)
        → c < 256
        → read spaces outside (escape_byte plain spaces c ++ t)
          ≡ put_before (c ∷ []) (read spaces outside t))
    → AreBytes s
    → read spaces outside (escape plain spaces s) ≡ some s
unfolding escape
read-escape plain spaces [] one h = unfold read in refl
read-escape plain spaces (c ∷ s) one h =
    rw (one c (escape plain spaces s) h.0, read-escape plain spaces s one h.1) refl

-- What is escaped is read back.
pub path_unescape-path_escape : (s : Text) → AreBytes s → path_unescape (path_escape s) ≡ some s
unfolding path_unescape path_escape
path_unescape-path_escape s h = read-escape in_path false s read-path_byte h

pub query_unescape-query_escape : (s : Text) → AreBytes s → query_unescape (query_escape s) ≡ some s
unfolding query_unescape query_escape
query_unescape-query_escape s h = read-escape in_query true s read-query_byte h

-- `b` is not in the text.
abbrev pub lacks : ℕ → Text → Bool
lacks b = all (λ c. not (c == b))

path_byte-lacks :
    (c : ℕ)
    → c < 256
    → (lacks b'/' (escape_byte in_path false c) && lacks b'?' (escape_byte in_path false c)) ≡ true
unfolding escape_byte
path_byte-lacks c h = ground arith

query_byte-lacks :
    (c : ℕ)
    → c < 256
    → (lacks b'&' (escape_byte in_query true c) && lacks b';' (escape_byte in_query true c)) ≡ true
unfolding escape_byte
query_byte-lacks c h = ground arith

escape-lacks :
    (plain : ℕ → Bool) (spaces : Bool) (b : ℕ) (s : Text)
    → ((c : ℕ) → c < 256 → lacks b (escape_byte plain spaces c) ≡ true)
    → AreBytes s
    → lacks b (escape plain spaces s) ≡ true
unfolding escape
escape-lacks plain spaces b [] one h = refl
escape-lacks plain spaces b (c ∷ s) one h = ground (
  arith,
  all-append (λ d. not (d == b)) (escape_byte plain spaces c) (escape plain spaces s),
  one c h.0,
  escape-lacks plain spaces b s one h.1,
)

-- An escaped segment has no slash, and no question mark.
pub path_escape-lacks :
    (s : Text)
    → AreBytes s
    → (lacks b'/' (path_escape s) ≡ true) × (lacks b'?' (path_escape s) ≡ true)
unfolding path_escape
path_escape-lacks s h = (
  escape-lacks in_path false b'/' s (λ c hc. ground (arith, path_byte-lacks c hc)) h,
  escape-lacks in_path false b'?' s (λ c hc. ground (arith, path_byte-lacks c hc)) h,
)

-- An escaped value has no ampersand, and no semicolon.
pub query_escape-lacks :
    (s : Text)
    → AreBytes s
    → (lacks b'&' (query_escape s) ≡ true) × (lacks b';' (query_escape s) ≡ true)
unfolding query_escape
query_escape-lacks s h = (
  escape-lacks in_query true b'&' s (λ c hc. ground (arith, query_byte-lacks c hc)) h,
  escape-lacks in_query true b';' s (λ c hc. ground (arith, query_byte-lacks c hc)) h,
)

-- The first piece ends at the first separator.
pub split-append : (b : ℕ) (s t : Text) → lacks b s ≡ true → split b (s ++ b ∷ t) ≡ s ∷ split b t
unfolding split
split-append b [] t h = ground (arith, ==_iff b b)
split-append b (c ∷ s) t h = ground (arith, split-append b s t)

pub split-one : (b : ℕ) (s : Text) → lacks b s ≡ true → split b s ≡ s ∷ []
unfolding split
split-one b [] h = refl
split-one b (c ∷ s) h = ground (arith, split-one b s)
