-- ===== src/Version.antt =====
-- internal/ocserv/version.go: the path of ocserv and the version that it names.
use openconnectd.Base.{
  ℕ, suc, ◌+◌, Bool, ◌&&◌, ◌||◌, [], ◌∷◌, Option, none, some, Text, codes, is_nil, take, leb, ◌==◌,
  if◌then◌else◌, ◌≡◌, refl,
}
use openconnectd.Strings.{trim_space, index_byte}
use openconnectd.Errors.{Ok, ok, err}
use openconnectd.Host.{Env, Host, call}
use openconnectd.Occtl.{Tool}
use openconnectd.Occtl.Commas.{is_re_space}

infixl 5 ◌>>=◌
abbrev ◌>>=◌ {ℓ κ} : {A : Type ℓ} {B : Type κ} → Option A → (A → Option B) → Option B
none >>= f = none
some a >>= f = f a

abbrev is_digit : ℕ → Bool
is_digit c = leb b'0' c && leb c b'9'

-- A letter in either case.
after_letter : ℕ → Text → Option Text
after_letter l [] = none
after_letter l (c ∷ s) = if c == l || c + 32 == l then some s else none

-- `(?i)s` takes U+017F, the long s, as well.
after_s : Text → Option Text
unfolding after_letter
after_s [] = none
after_s (c ∷ []) = after_letter b's' (c ∷ [])
after_s (c ∷ d ∷ s) = if c == 0xC5 && d == 0xBF then some s else after_letter b's' (c ∷ d ∷ s)

after_spaces : Text → Text
after_spaces [] = []
after_spaces (c ∷ s) = let rest = after_spaces s in if is_re_space c then rest else c ∷ s

-- `\s+`
after_space : Text → Option Text
unfolding after_spaces
after_space [] = none
after_space (c ∷ s) = if is_re_space c then some (after_spaces s) else none

-- `v?`
after_v : Text → Text
after_v [] = []
after_v (c ∷ s) = if c == b'v' || c == b'V' then s else c ∷ s

-- `[0-9.]*`
number : Text → Text
number [] = []
number (c ∷ s) = let rest = number s in if is_digit c || c == b'.' then c ∷ rest else []

-- `([0-9][0-9.]*)`
version_at : Text → Option Text
unfolding number
version_at [] = none
version_at (c ∷ s) = if is_digit c then some (c ∷ number s) else none

-- verRe at the front of the text; no part of it can match what the next one begins with.
match_here : Text → Option Text
unfolding after_letter after_s after_space after_v version_at
match_here s = do
  s1 ← after_letter b'o' s
  s2 ← after_letter b'c' s1
  s3 ← after_s s2
  s4 ← after_letter b'e' s3
  s5 ← after_letter b'r' s4
  s6 ← after_letter b'v' s5
  s7 ← after_space s6
  version_at (after_v s7)

abbrev or_else : Option Text → Option Text → Option Text
or_else none o = o
or_else (some t) o = some t

-- The submatch of the leftmost match.
unfoldable pub find_version : Text → Option Text
unfolding match_here
find_version [] = match_here []
find_version (c ∷ s) = or_else (match_here (c ∷ s)) (find_version s)

abbrev up_to : Text → Option ℕ → Text
up_to s none = s
up_to s (some i) = take i s

unfoldable pub first_line : Text → Text
first_line s = up_to s (index_byte s b'\n')

abbrev version_or : Option Text → Text → Text
version_or (some v) out = v
version_or none out = trim_space (first_line out)

abbrev named : Ok × Text → Text
named (ok _, out) = version_or (find_version out) out
named (err e, out) = []

abbrev or_ocserv : Text → Text
or_ocserv bin = if is_nil bin then codes "ocserv" else bin

module _ (env : Env) (tool : Tool) where
  abbrev probe : Text → Ok × Host → (Text × Text) × Host
  probe bin (ok _, h) =
      ((bin, named (tool bin (codes "--version" ∷ []) h.calls)), record h { calls = suc h.calls })
  probe bin (err e, h) = (([], []), h)

  -- Resolve, without an error: a binary that is not there has no path, and one that fails no version.
  -- The path that LookPath finds stands as the name that is looked up.
  unfoldable pub resolve : Text → Host → (Text × Text) × Host
  resolve bin h = probe (or_ocserv bin) (call env h)

abbrev sample : Text
sample = codes "OpenConnect VPN Server\nOCserv  v1.2.4-rc, compiled"

find_version-sample : find_version sample ≡ some (codes "1.2.4")
unfolding find_version
find_version-sample = refl
