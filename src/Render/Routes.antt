-- ===== src/Render/Routes.antt =====
-- dedupSorted of internal/ocserv/config.go. Equal strings are one value, so every sorting algorithm
-- gives the list that insertion sort does.
pub mod Laws
use openconnectd.Base.{
  ℕ, Bool, true, false, ◌||◌, ◌&&◌, List, [], ◌∷◌, Text, same, ltb, ◌==◌, any, if◌then◌else◌,
}

-- `<=` on Go strings: byte by byte
unfoldable pub text_le : Text → Text → Bool
text_le [] t = true
text_le (c ∷ s) [] = false
text_le (c ∷ s) (d ∷ t) = ltb c d || (c == d && text_le s t)

-- `_, ok := seen[s]`
abbrev is_seen : Text → List Text → Bool
is_seen s = any (same s)

-- The loop over the input, with the keys of `seen`.
drop_seen : List Text → List Text → List Text
drop_seen seen [] = []
drop_seen seen (s ∷ rest) =
    let fresh = s ∷ drop_seen (s ∷ seen) rest in
    let stale = drop_seen seen rest in if is_seen s seen then stale else fresh

put_sorted : Text → List Text → List Text
unfolding text_le
put_sorted s [] = s ∷ []
put_sorted s (t ∷ ts) = let rest = t ∷ put_sorted s ts in if text_le s t then s ∷ t ∷ ts else rest

-- sort.Strings
sort : List Text → List Text
unfolding put_sorted
sort [] = []
sort (s ∷ ss) = put_sorted s (sort ss)

unfoldable pub dedup_sorted : List Text → List Text
unfolding drop_seen sort
dedup_sorted routes = sort (drop_seen [] routes)
