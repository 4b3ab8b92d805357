-- ===== src/Ocpasswd/Lines.antt =====
-- What internal/ocserv/ocpasswd.go reads of a file that it wrote.
use mathlib.Core.List.{reverse-cons}
use openconnectd.Base.{
  ℕ, ◌≤◌, ◌≡◌, refl, sym, ap, Bool, true, false, not, ◌&&◌, List, [], ◌∷◌, ◌++◌, append_assoc,
  append-nil, map, reverse, some, Text, any, all, all-reverse, length, length-reverse, ◌==◌, leb,
  ltb, arith, Bool-cases, inl, inr,
}
use openconnectd.Ocpasswd.{strip_cr, strip_cr_reversed, raw_lines, max_token, scan, unlines}

abbrev no_newline : Text → Bool
no_newline = all (λ c. not (c == b'\n'))

-- A line that the scanner can have returned.
abbrev pub is_scanned : Text → Bool
is_scanned l = no_newline l && ltb (length l) 65536

raw_lines-append :
    (acc l rest : Text)
    → no_newline l ≡ true
    → raw_lines acc (l ++ b'\n' ∷ rest) ≡ (reverse acc ++ l) ∷ raw_lines [] rest
unfolding raw_lines
raw_lines-append acc [] rest h = ap (λ t. t ∷ raw_lines [] rest) (sym (append-nil (reverse acc)))
raw_lines-append acc (c ∷ l) rest h = ground (
  arith,
  raw_lines-append (c ∷ acc) l rest,
  reverse-cons c acc,
  append_assoc (reverse acc) (c ∷ []) l,
)

raw_lines-unlines : (ls : List Text) → all no_newline ls ≡ true → raw_lines [] (unlines ls) ≡ ls
unfolding unlines raw_lines
raw_lines-unlines [] h = refl
raw_lines-unlines (l ∷ ls) h =
    ground (arith, raw_lines-append [] l (unlines ls), raw_lines-unlines ls)

raw_lines-no_newline :
    (acc s : Text) → no_newline acc ≡ true → all no_newline (raw_lines acc s) ≡ true
unfolding raw_lines
raw_lines-no_newline acc [] h = ground (arith, all-reverse (λ c. not (c == b'\n')) acc h)
raw_lines-no_newline acc (c ∷ s) h = ground (
  arith,
  all-reverse (λ c. not (c == b'\n')) acc h,
  raw_lines-no_newline [] s,
  raw_lines-no_newline (c ∷ acc) s,
)

strip_cr_reversed-all :
    (p : ℕ → Bool) (s : Text) → all p s ≡ true → all p (strip_cr_reversed s) ≡ true
strip_cr_reversed-all p [] h = h
strip_cr_reversed-all p (c ∷ s) h = ground arith

strip_cr_reversed-length : (s : Text) → length (strip_cr_reversed s) ≤ length s
strip_cr_reversed-length [] = ground arith
strip_cr_reversed-length (c ∷ s) = ground arith

strip_cr-is_scanned :
    (l : Text)
    → no_newline l ≡ true
    → leb max_token (length l) ≡ false
    → is_scanned (strip_cr l) ≡ true
unfolding strip_cr max_token
strip_cr-is_scanned l h b =
    let p : ℕ → Bool = λ c. not (c == b'\n') in
    let chars =
      all-reverse p (strip_cr_reversed (reverse l))
        (strip_cr_reversed-all p (reverse l) (all-reverse p l h)) in
    rw chars (
      ground (
        arith,
        length-reverse (strip_cr_reversed (reverse l)),
        strip_cr_reversed-length (reverse l),
        length-reverse l,
      ))

stripped-is_scanned :
    (raw : List Text)
    → all no_newline raw ≡ true
    → any (λ l. leb max_token (length l)) raw ≡ false
    → all is_scanned (map strip_cr raw) ≡ true
stripped-is_scanned [] h b = refl
stripped-is_scanned (l ∷ raw) h b = ground (arith, strip_cr-is_scanned l, stripped-is_scanned raw)

pub scan-is_scanned :
    (content : Text) (lines : List Text) → scan content ≡ some lines → all is_scanned lines ≡ true
unfolding scan
scan-is_scanned content lines h =
    elim (Bool-cases (any (λ l. leb max_token (length l)) (raw_lines [] content))) [
      | inl long ↦ ground arith
      | inr short ↦ ground (
        arith,
        stripped-is_scanned (raw_lines [] content) (raw_lines-no_newline [] content refl) short,
      )
    ]

short-lines :
    (ls : List Text)
    → all is_scanned ls ≡ true
    → (all no_newline ls ≡ true) × (any (λ l. leb max_token (length l)) ls ≡ false)
unfolding max_token
short-lines [] h = (refl, refl)
short-lines (l ∷ ls) h = ground (arith, short-lines ls)

-- Written lines are read back, each without a carriage return at its end.
pub scan-unlines :
    (ls : List Text) → all is_scanned ls ≡ true → scan (unlines ls) ≡ some (map strip_cr ls)
unfolding scan
scan-unlines ls h = let (plain, short) = short-lines ls h in rw (raw_lines-unlines ls plain, short)
