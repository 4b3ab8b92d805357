-- ===== src/FilePath.antt =====
-- Go's path/filepath on Unix: Clean, Join of two elements, and Base. A path is cleaned element by
-- element; the stack holds the elements that stay, the last one first.
pub mod Laws
use mathlib.Core.List.{foldl}
use openconnectd.Base.{
  ◌≡◌, refl, Bool, true, false, ◌||◌, List, [], ◌∷◌, ◌++◌, reverse, Text, codes, same, is_nil, ◌==◌,
  if◌then◌else◌,
}

put_front : Text → List Text → List Text
put_front t [] = t ∷ []
put_front t (p ∷ ps) = (t ++ p) ∷ ps

-- The elements between the slashes; there is at least one.
elements : Text → List Text
unfolding put_front
elements [] = [] ∷ []
elements (c ∷ s) = let rest = elements s in if c == b'/' then [] ∷ rest else put_front (c ∷ []) rest

-- `..`: the element before it goes; at a root it is dropped, and else it stays.
back : Bool → List Text → List Text
back true [] = []
back false [] = codes ".." ∷ []
back rooted (top ∷ stack) = if same top (codes "..") then codes ".." ∷ top ∷ stack else stack

step : Bool → List Text → Text → List Text
unfolding back
step rooted stack e =
    if is_nil e || same e (codes ".")
    then stack
    else if same e (codes "..")
    then back rooted stack
    else e ∷ stack

unfoldable pub is_rooted : Text → Bool
is_rooted [] = false
is_rooted (c ∷ s) = c == b'/'

join_elements : List Text → Text
join_elements [] = []
join_elements (e ∷ []) = e
join_elements (e ∷ f ∷ es) = e ++ b'/' ∷ join_elements (f ∷ es)

or_dot : Text → Text
or_dot [] = codes "."
or_dot (c ∷ s) = c ∷ s

unfoldable pub stack_of : Text → List Text
unfolding elements step is_rooted
stack_of path = foldl (step (is_rooted path)) [] (elements path)

unfoldable pub clean : Text → Text
unfolding stack_of join_elements or_dot
clean path =
    let out = join_elements (reverse (stack_of path)) in
    if is_rooted path then b'/' ∷ out else or_dot out

-- filepath.Join(dir, name)
unfoldable pub join : Text → Text → Text
join dir name =
    if is_nil dir then (if is_nil name then [] else clean name) else clean (dir ++ b'/' ∷ name)

drop_slashes : Text → Text
drop_slashes [] = []
drop_slashes (c ∷ s) = let rest = drop_slashes s in if c == b'/' then rest else c ∷ s

until_slash : Text → Text
until_slash [] = []
until_slash (c ∷ s) = let rest = until_slash s in if c == b'/' then [] else c ∷ rest

or_slash : Text → Text
or_slash [] = codes "/"
or_slash (c ∷ s) = c ∷ s

-- filepath.Base, from the end of the path
unfoldable pub base : Text → Text
unfolding drop_slashes until_slash or_slash
base [] = codes "."
base (c ∷ s) = or_slash (reverse (until_slash (drop_slashes (reverse (c ∷ s)))))

cleaned :
    (clean (codes "/a//b/./../c/") ≡ codes "/a/c")
    × (clean (codes "../../x/..") ≡ codes "../..")
    × (clean (codes "/../x") ≡ codes "/x")
    × (clean [] ≡ codes ".")
    × (join (codes "/state") (codes "edge1.conf") ≡ codes "/state/edge1.conf")
    × (base (codes "/a/b//") ≡ codes "b")
    × (base (codes "///") ≡ codes "/")
unfolding clean join base same
cleaned = (refl, refl, refl, refl, refl, refl, refl)
