-- ===== src/Ocpasswd/Users.antt =====
-- Whose lines the password file of internal/ocserv/ocpasswd.go has.
use mathlib.Core.List.{reverse-reverse, reverse-cons}
use openconnectd.Base.{
  ◌≡◌, refl, sym, ap, ◌∙◌, Bool, true, false, not, ◌&&◌, List, [], ◌∷◌, ◌++◌, map, reverse, Text,
  is_nil, any, all, keep, ◌==◌, ==_iff, same, same_iff, arith, inl, inr, ◌⊎◌, Bool-cases,
}
use openconnectd.Strings.{trim_space, trim_space-return}
use openconnectd.Ocpasswd.{strip_cr, strip_cr_reversed, line_user, user_of, users_of}
use openconnectd.Ocpasswd.Lines.{is_scanned}

-- Some line is the user's. Nobody has the empty name.
unfoldable pub has_user : Text → List Text → Bool
has_user v lines = not (is_nil v) && any (λ l. same (line_user l) v) lines

-- A line without what strip_cr takes off.
reversed-strip_cr :
    (r : Text)
    → (reverse (strip_cr_reversed r) ≡ reverse r)
      ⊎ (reverse r ≡ reverse (strip_cr_reversed r) ++ 13 ∷ [])
reversed-strip_cr [] = inl refl
reversed-strip_cr (c ∷ r) = elim (Bool-cases (c == 13)) [
  | inl e ↦ inr (rw (e, (==_iff c 13).0 e, reverse-cons 13 r) refl)
  | inr e ↦ inl (rw e refl)
]

trim_space-strip_cr : (l : Text) → trim_space (strip_cr l) ≡ trim_space l
unfolding strip_cr
trim_space-strip_cr l = elim (reversed-strip_cr (reverse l)) [
  | inl e ↦ ap trim_space (e ∙ reverse-reverse l)
  | inr e ↦
      sym (trim_space-return (reverse (strip_cr_reversed (reverse l))))
      ∙ ap trim_space (sym e ∙ reverse-reverse l)
]

line_user-strip_cr : (l : Text) → line_user (strip_cr l) ≡ line_user l
unfolding line_user
line_user-strip_cr l = ap user_of (trim_space-strip_cr l)

pub users_of-has_user :
    (v : Text) (lines : List Text) → any (λ u. same u v) (users_of lines) ≡ has_user v lines
unfolding users_of has_user
users_of-has_user v [] = ground arith
users_of-has_user v (l ∷ lines) =
    ground (arith, users_of-has_user v lines, same_iff (line_user l) v)

-- The lines of a user are gone, and those of the others are there, also when they are read back.
pub has_user-keep :
    (user v : Text) (lines : List Text)
    → has_user v (map strip_cr (keep (λ l. not (same (line_user l) user)) lines))
      ≡ (not (same v user) && has_user v lines)
unfolding has_user
has_user-keep user v [] = ground arith
has_user-keep user v (l ∷ lines) = ground (
  arith,
  has_user-keep user v lines,
  line_user-strip_cr l,
  same_iff (line_user l) user,
  same_iff (line_user l) v,
  same_iff v user,
)

pub has_user-absent :
    (user v : Text) (lines : List Text)
    → has_user user lines ≡ false
    → has_user v lines ≡ (not (same v user) && has_user v lines)
has_user-absent user v lines h = elim (Bool-cases (same v user)) [
  | inl e ↦ rw ((same_iff v user).0 e, h) (ground arith)
  | inr e ↦ rw e
]

pub keep-is_scanned :
    (p : Text → Bool) (lines : List Text)
    → all is_scanned lines ≡ true
    → all is_scanned (keep p lines) ≡ true
keep-is_scanned p [] h = refl
keep-is_scanned p (l ∷ lines) h = ground (arith, keep-is_scanned p lines)
