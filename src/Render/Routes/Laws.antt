-- ===== src/Render/Routes/Laws.antt =====
-- The routes that are written: each one once, in ascending order.
use openconnectd.Base.{
  ◌≡◌, refl, ◌∙◌, Bool, true, false, ◌||◌, ◌&&◌, List, [], ◌∷◌, Text, same, same_iff, same_refl,
  any, all, not, arith,
}
use openconnectd.Render.Routes.{text_le, is_seen, drop_seen, put_sorted, sort, dedup_sorted}

pub text_le_total : (s t : Text) → text_le s t ≡ false → text_le t s ≡ true
unfolding text_le
text_le_total [] t h = ground arith
text_le_total (c ∷ s) [] h = refl
text_le_total (c ∷ s) (d ∷ t) h = ground (arith, text_le_total s t)

pub text_le_trans : (s t u : Text) → text_le s t ≡ true → text_le t u ≡ true → text_le s u ≡ true
unfolding text_le
text_le_trans [] t u h k = refl
text_le_trans (c ∷ s) [] u h k = ground arith
text_le_trans (c ∷ s) (d ∷ t) [] h k = ground arith
text_le_trans (c ∷ s) (d ∷ t) (e ∷ u) h k = ground (arith, text_le_trans s t u)

-- Every text is below those behind it, and differs from them.
abbrev pub is_above : Text → Text → Bool
is_above s t = text_le s t && not (same s t)

abbrev pub is_ascending : List Text → Bool
is_ascending [] = true
is_ascending (s ∷ ts) = all (is_above s) ts && is_ascending ts

same_comm : (s t : Text) → same s t ≡ same t s
same_comm s t = ground (arith, same_iff s t, same_iff t s)

is_seen-put_sorted :
    (x s : Text) (ts : List Text) → is_seen x (put_sorted s ts) ≡ is_seen x (s ∷ ts)
unfolding put_sorted
is_seen-put_sorted x s [] = refl
is_seen-put_sorted x s (t ∷ ts) = ground (arith, is_seen-put_sorted x s ts)

is_seen-sort : (x : Text) (ts : List Text) → is_seen x (sort ts) ≡ is_seen x ts
unfolding sort
is_seen-sort x [] = refl
is_seen-sort x (t ∷ ts) = ground (arith, is_seen-put_sorted x t (sort ts), is_seen-sort x ts)

-- What is in the input and was not seen before is in the output.
is_seen-drop_seen :
    (x : Text) (seen ts : List Text)
    → (is_seen x seen || is_seen x (drop_seen seen ts)) ≡ (is_seen x seen || is_seen x ts)
unfolding drop_seen
is_seen-drop_seen x seen [] = refl
is_seen-drop_seen x seen (t ∷ ts) =
    ground (arith, is_seen-drop_seen x seen ts, is_seen-drop_seen x (t ∷ seen) ts, same_iff x t)

all-put_sorted :
    (p : Text → Bool) (s : Text) (ts : List Text) → all p (put_sorted s ts) ≡ (p s && all p ts)
unfolding put_sorted
all-put_sorted p s [] = ground arith
all-put_sorted p s (t ∷ ts) = ground (arith, all-put_sorted p s ts)

is_above_trans :
    (s t : Text) (ts : List Text)
    → text_le s t ≡ true
    → is_seen s ts ≡ false
    → all (is_above t) ts ≡ true
    → all (is_above s) ts ≡ true
is_above_trans s t [] le new h = refl
is_above_trans s t (u ∷ ts) le new h = ground (arith, is_above_trans s t ts, text_le_trans s t u)

put_sorted-is_ascending :
    (s : Text) (ts : List Text)
    → is_seen s ts ≡ false
    → is_ascending ts ≡ true
    → is_ascending (put_sorted s ts) ≡ true
unfolding put_sorted
put_sorted-is_ascending s [] new h = refl
put_sorted-is_ascending s (t ∷ ts) new h = ground (
  arith,
  put_sorted-is_ascending s ts,
  all-put_sorted (is_above t) s ts,
  is_above_trans s t ts,
  text_le_total s t,
  same_comm s t,
)

-- No text stands twice.
abbrev all_fresh : List Text → Bool
all_fresh [] = true
all_fresh (s ∷ ts) = not (is_seen s ts) && all_fresh ts

sort-is_ascending : (ts : List Text) → all_fresh ts ≡ true → is_ascending (sort ts) ≡ true
unfolding sort
sort-is_ascending [] h = refl
sort-is_ascending (t ∷ ts) h =
    ground (arith, sort-is_ascending ts, put_sorted-is_ascending t (sort ts), is_seen-sort t ts)

drop_seen-seen :
    (x : Text) (seen ts : List Text) → is_seen x seen ≡ true → is_seen x (drop_seen seen ts) ≡ false
unfolding drop_seen
drop_seen-seen x seen [] h = refl
drop_seen-seen x seen (t ∷ ts) h =
    ground (arith, drop_seen-seen x seen ts, drop_seen-seen x (t ∷ seen) ts, same_iff x t)

drop_seen-all_fresh : (seen ts : List Text) → all_fresh (drop_seen seen ts) ≡ true
unfolding drop_seen
drop_seen-all_fresh seen [] = refl
drop_seen-all_fresh seen (t ∷ ts) = ground (
  arith,
  drop_seen-all_fresh seen ts,
  drop_seen-all_fresh (t ∷ seen) ts,
  drop_seen-seen t (t ∷ seen) ts,
  same_refl t,
)

-- The routes come out strictly ascending, so none twice, and they are those that went in.
pub dedup_sorted_lem :
    (routes : List Text)
    → (is_ascending (dedup_sorted routes) ≡ true)
      × ((s : Text) → any (same s) (dedup_sorted routes) ≡ any (same s) routes)
unfolding dedup_sorted
dedup_sorted_lem routes = (
  sort-is_ascending (drop_seen [] routes) (drop_seen-all_fresh [] routes),
  λ s. is_seen-sort s (drop_seen [] routes) ∙ is_seen-drop_seen s [] routes,
)

-- What holds of every route holds of every route that is written.
all-sort : (p : Text → Bool) (ts : List Text) → all p (sort ts) ≡ all p ts
unfolding sort
all-sort p [] = refl
all-sort p (t ∷ ts) = ground (arith, all-put_sorted p t (sort ts), all-sort p ts)

all-drop_seen :
    (p : Text → Bool) (seen ts : List Text) → all p ts ≡ true → all p (drop_seen seen ts) ≡ true
unfolding drop_seen
all-drop_seen p seen [] h = refl
all-drop_seen p seen (t ∷ ts) h =
    ground (arith, all-drop_seen p seen ts, all-drop_seen p (t ∷ seen) ts)

pub all-dedup_sorted :
    (p : Text → Bool) (routes : List Text)
    → all p routes ≡ true
    → all p (dedup_sorted routes) ≡ true
unfolding dedup_sorted
all-dedup_sorted p routes h = all-sort p (drop_seen [] routes) ∙ all-drop_seen p [] routes h
