-- ===== src/FilePath/Laws.antt =====
-- A file named by a single path element stands directly in its directory.
use mathlib.Core.List.{foldl, reverse-cons, concat-ne-nil, reverse-reverse}
use openconnectd.Base.{
  ◌≡◌, ◌≢◌, refl, sym, ap, ◌∙◌, Bool, true, false, ◌&&◌, not, List, [], ◌∷◌, ◌++◌, reverse, drop,
  append_assoc, Text, codes, same, is_nil, ◌==◌, all, all-append, arith,
}
use openconnectd.FilePath.{
  put_front, elements, step, is_rooted, join_elements, stack_of, or_dot, clean, join, base,
  until_slash, drop_slashes,
}

-- One element of a path that names a file: no slash, and none of "", "." and "..".
abbrev pub lacks_slash : Text → Bool
lacks_slash = all (λ c. not (c == b'/'))

abbrev pub is_element : Text → Bool
is_element e =
    lacks_slash e && not (is_nil e) && not (same e (codes ".")) && not (same e (codes ".."))

elements-lacks_slash : (e : Text) → lacks_slash e ≡ true → elements e ≡ e ∷ []
unfolding elements
elements-lacks_slash [] h = refl
elements-lacks_slash (c ∷ e) h = ground (arith, elements-lacks_slash e)

put_front-append :
    (t : Text) (ps qs : List Text) → ps ≢ [] → put_front t (ps ++ qs) ≡ put_front t ps ++ qs
unfolding put_front
put_front-append t [] qs h = absurd (h refl)
put_front-append t (p ∷ ps) qs h = refl

elements-ne-nil : (s : Text) → elements s ≢ []
unfolding elements put_front
elements-ne-nil [] = ground arith
elements-ne-nil (c ∷ s) = ground arith

elements-append : (d e : Text) → elements (d ++ b'/' ∷ e) ≡ elements d ++ elements e
unfolding elements
elements-append [] e = refl
elements-append (c ∷ d) e = ground (
  arith,
  elements-append d e,
  put_front-append (c ∷ []) (elements d) (elements e) (elements-ne-nil d),
)

is_rooted-append : (d e : Text) → d ≢ [] → is_rooted (d ++ e) ≡ is_rooted d
unfolding is_rooted
is_rooted-append [] e h = absurd (h refl)
is_rooted-append (c ∷ d) e h = refl

foldl-concat :
    (f : List Text → Text → List Text) (z : List Text) (xs : List Text) (x : Text)
    → foldl f z (xs ++ x ∷ []) ≡ f (foldl f z xs) x
foldl-concat f z [] x = refl
foldl-concat f z (y ∷ xs) x = foldl-concat f (f z y) xs x

step-is_element :
    (rooted : Bool) (stack : List Text) (e : Text)
    → is_element e ≡ true
    → step rooted stack e ≡ e ∷ stack
unfolding step
step-is_element rooted stack e h = ground arith

-- The element is pushed on what the directory leaves.
stack_of-append :
    (d e : Text) → d ≢ [] → is_element e ≡ true → stack_of (d ++ b'/' ∷ e) ≡ e ∷ stack_of d
unfolding stack_of
stack_of-append d e ne h =
    rw
      (
        is_rooted-append d (b'/' ∷ e) ne,
        elements-append d e,
        elements-lacks_slash e (ground arith),
        foldl-concat (step (is_rooted d)) [] (elements d) e,
      )
      (step-is_element (is_rooted d) (foldl (step (is_rooted d)) [] (elements d)) e h)

join_elements-concat :
    (es : List Text) (e : Text)
    → es ≢ []
    → join_elements (es ++ e ∷ []) ≡ join_elements es ++ b'/' ∷ e
unfolding join_elements
join_elements-concat [] e h = absurd (h refl)
join_elements-concat (x ∷ []) e h = refl
join_elements-concat (x ∷ y ∷ es) e h =
    ap (λ t. x ++ b'/' ∷ t) (join_elements-concat (y ∷ es) e (ground arith))
    ∙ sym (append_assoc x (b'/' ∷ join_elements (y ∷ es)) (b'/' ∷ e))

reverse-ne-nil : (es : List Text) → es ≢ [] → reverse es ≢ []
reverse-ne-nil [] h k = absurd (h refl)
reverse-ne-nil (e ∷ es) h k = concat-ne-nil e (reverse es) (sym (reverse-cons e es) ∙ k)

clean_rooted :
    (p : Text) → is_rooted p ≡ true → clean p ≡ b'/' ∷ join_elements (reverse (stack_of p))
unfolding clean
clean_rooted p h = rw h

not_rooted : is_rooted [] ≢ true
unfolding is_rooted
not_rooted e = ground arith

-- Joining an absolute directory, other than the root, and a single element gives a file directly in
-- that directory: nothing is lost, and nothing climbs out.
pub join_lem :
    (dir name : Text)
    → is_rooted dir ≡ true
    → stack_of dir ≢ []
    → is_element name ≡ true
    → join dir name ≡ clean dir ++ b'/' ∷ name
unfolding join
join_lem [] name rooted ne h = absurd (not_rooted rooted)
join_lem (c ∷ dir) name rooted ne h =
    let e : stack_of ((c ∷ dir) ++ b'/' ∷ name) ≡ name ∷ stack_of (c ∷ dir) =
      stack_of-append (c ∷ dir) name (ground arith) h in
    clean_rooted ((c ∷ dir) ++ b'/' ∷ name)
      (is_rooted-append (c ∷ dir) (b'/' ∷ name) (ground arith) ∙ rooted)
    ∙ ap (λ st. b'/' ∷ join_elements (reverse st)) e
    ∙ ap (λ es. b'/' ∷ join_elements es) (reverse-cons name (stack_of (c ∷ dir)))
    ∙ ap (λ t. b'/' ∷ t)
        (join_elements-concat (reverse (stack_of (c ∷ dir))) name
          (reverse-ne-nil (stack_of (c ∷ dir)) ne))
    ∙ ap (λ t. t ++ b'/' ∷ name) (sym (clean_rooted (c ∷ dir) rooted))

append-cancel : (d a b : Text) → d ++ a ≡ d ++ b → a ≡ b
append-cancel [] a b e = e
append-cancel (c ∷ d) a b e = append-cancel d a b (ground arith)

-- Two names of files in one directory are two files.
pub join-apart :
    (dir a b : Text)
    → is_rooted dir ≡ true
    → stack_of dir ≢ []
    → is_element a ≡ true
    → is_element b ≡ true
    → a ≢ b
    → join dir a ≢ join dir b
join-apart dir a b rooted ne ha hb apart e = apart (
    ap (drop 1) (
      append-cancel (clean dir) (b'/' ∷ a) (b'/' ∷ b)
        (sym (join_lem dir a rooted ne ha) ∙ e ∙ join_lem dir b rooted ne hb)))

-- An absolute directory, other than the root, that is written as Clean would write it.
pub record IsCleanDir (dir : Text) : Type 0 where
  pub rooted : is_rooted dir ≡ true
  pub deep : stack_of dir ≢ []
  pub cleaned : clean dir ≡ dir

module _ {dir : Text} (d : IsCleanDir dir) (name : Text) (h : is_element name ≡ true) where
  pub join-IsCleanDir_lem : join dir name ≡ dir ++ b'/' ∷ name
  join-IsCleanDir_lem = join_lem dir name d.rooted d.deep h ∙ ap (λ t. t ++ b'/' ∷ name) d.cleaned

  dir-ne-nil : dir ≢ []
  dir-ne-nil e = not_rooted (ap is_rooted (sym e) ∙ d.rooted)

  pub join-IsCleanDir : IsCleanDir (dir ++ b'/' ∷ name)
  join-IsCleanDir = record {
    rooted = is_rooted-append dir (b'/' ∷ name) dir-ne-nil ∙ d.rooted;
    deep = λ e. ground (arith, stack_of-append dir name dir-ne-nil h);
    cleaned = join_of dir dir-ne-nil ∙ join-IsCleanDir_lem;
  }
    where
      join_of : (dir' : Text) → dir' ≢ [] → clean (dir' ++ b'/' ∷ name) ≡ join dir' name
      join_of [] ne = absurd (ne refl)
      join_of (c ∷ dir') ne = unfold join in refl

-- A single element is what Base and Clean leave as it is.
until_slash-lacks_slash : (s : Text) → lacks_slash s ≡ true → until_slash s ≡ s
unfolding until_slash
until_slash-lacks_slash [] h = refl
until_slash-lacks_slash (c ∷ s) h = ground (arith, until_slash-lacks_slash s)

drop_slashes-lacks_slash : (s : Text) → lacks_slash s ≡ true → drop_slashes s ≡ s
unfolding drop_slashes
drop_slashes-lacks_slash [] h = refl
drop_slashes-lacks_slash (c ∷ s) h = ground arith

lacks_slash-reverse : (s : Text) → lacks_slash (reverse s) ≡ lacks_slash s
lacks_slash-reverse [] = refl
lacks_slash-reverse (c ∷ s) =
    rw (reverse-cons c s, all-append (λ d. not (d == b'/')) (reverse s) (c ∷ []))
      (ground (arith, lacks_slash-reverse s))

pub base-is_element : (e : Text) → is_element e ≡ true → base e ≡ e
unfolding base
base-is_element [] h = ground arith
base-is_element (c ∷ s) h =
    let l : lacks_slash (reverse (c ∷ s)) ≡ true = lacks_slash-reverse (c ∷ s) ∙ ground arith in
    rw (
      drop_slashes-lacks_slash (reverse (c ∷ s)) l,
      until_slash-lacks_slash (reverse (c ∷ s)) l,
      reverse-reverse,
    )

stack_of-is_element : (e : Text) → is_element e ≡ true → stack_of e ≡ e ∷ []
unfolding stack_of
stack_of-is_element e h =
    rw (elements-lacks_slash e (ground arith)) (step-is_element (is_rooted e) [] e h)

is_rooted-is_element : (e : Text) → is_element e ≡ true → is_rooted e ≡ false
unfolding is_rooted
is_rooted-is_element [] h = refl
is_rooted-is_element (c ∷ e) h = ground arith

or_dot-is_element : (e : Text) → is_element e ≡ true → or_dot e ≡ e
unfolding or_dot
or_dot-is_element [] h = ground arith
or_dot-is_element (c ∷ e) h = refl

clean_relative :
    (p : Text) → is_rooted p ≡ false → clean p ≡ or_dot (join_elements (reverse (stack_of p)))
unfolding clean
clean_relative p h = rw h

pub clean-is_element : (e : Text) → is_element e ≡ true → clean e ≡ e
clean-is_element e h =
    clean_relative e (is_rooted-is_element e h)
    ∙ ap (λ st. or_dot (join_elements (reverse st))) (stack_of-is_element e h)
    ∙ unfold join_elements in or_dot-is_element e h
