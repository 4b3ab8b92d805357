-- ===== src/Occtl/Commas.antt =====
-- trailingCommaRE of internal/ocserv/occtl.go, and what its replacement does to occtl's lists.
use openconnectd.Base.{
  ℕ, ◌≡◌, refl, sym, ◌∙◌, Bool, true, false, all, ◌&&◌, ◌||◌, List, [], ◌∷◌, ◌++◌, append_assoc,
  Text, codes, ◌==◌, if◌then◌else◌, All, arith,
}

-- `\s` of Go's regexp
abbrev pub is_re_space : ℕ → Bool
is_re_space c = c == 9 || c == 10 || c == 12 || c == 13 || c == 32

-- `[\]}]`
abbrev is_closing : ℕ → Bool
is_closing c = c == b']' || c == b'}'

-- `\s*[\]}]` matches at the front.
closes : Text → Bool
closes [] = false
closes (c ∷ s) = is_closing c || (is_re_space c && closes s)

-- ReplaceAllString(s, "$1") of `,(\s*[\]}])`: the comma goes, and what the group holds has no comma.
unfoldable pub strip_commas : Text → Text
unfolding closes
strip_commas [] = []
strip_commas (c ∷ s) = let rest = strip_commas s in if c == b',' && closes s then rest else c ∷ rest

-- A list as occtl prints it with a comma and a line end behind every row, the last one too.
unfoldable pub emitted : List Text → Text
emitted [] = codes "]"
emitted (r ∷ rows) = r ++ (codes ",\n" ++ emitted rows)

-- A list as JSON asks for, and as occtl prints others: a comma between two rows.
unfoldable pub proper : List Text → Text
proper [] = codes "]"
proper (r ∷ []) = r ++ codes "\n]"
proper (r ∷ q ∷ rows) = r ++ (codes ",\n" ++ proper (q ∷ rows))

-- A row is an object behind its indentation, and has no comma itself that stands before a bracket.
pub record IsRow (r : Text) : Type 0 where
  pub indent : Text
  pub body : Text
  pub is_indent : all is_re_space indent ≡ true
  pub is_object : r ≡ indent ++ b'{' ∷ (body ++ b'}' ∷ [])
  pub is_clean : strip_commas r ≡ r

closes-indent : (a t : Text) → all is_re_space a ≡ true → closes (a ++ b'{' ∷ t) ≡ false
unfolding closes
closes-indent [] t h = refl
closes-indent (c ∷ a) t h = ground (arith, closes-indent a t)

closes-append : (a t : Text) → closes (a ++ b'}' ∷ t) ≡ closes (a ++ b'}' ∷ [])
unfolding closes
closes-append [] t = refl
closes-append (c ∷ a) t = ground (arith, closes-append a t)

strip_commas-append :
    (a t : Text) → strip_commas (a ++ b'}' ∷ t) ≡ strip_commas (a ++ b'}' ∷ []) ++ strip_commas t
unfolding strip_commas
strip_commas-append [] t = refl
strip_commas-append (c ∷ a) t = ground (arith, strip_commas-append a t, closes-append a t)

-- An object is a front and its closing bracket.
object-front :
    (indent body : Text)
    → indent ++ b'{' ∷ (body ++ b'}' ∷ []) ≡ (indent ++ b'{' ∷ body) ++ b'}' ∷ []
object-front indent body = sym (append_assoc indent (b'{' ∷ body) (b'}' ∷ []))

strip_commas-row : (r t : Text) → IsRow r → strip_commas (r ++ t) ≡ r ++ strip_commas t
strip_commas-row r t h =
    let front = h.indent ++ b'{' ∷ h.body in
    let e : r ≡ front ++ b'}' ∷ [] = h.is_object ∙ object-front h.indent h.body in
    let whole : strip_commas (r ++ t) ≡ strip_commas r ++ strip_commas t =
      rw (e, append_assoc front (b'}' ∷ []) t) (strip_commas-append front t) in
    rw (whole, h.is_clean) refl

closes-row : (q t : Text) → IsRow q → closes (b'\n' ∷ (q ++ t)) ≡ false
unfolding closes
closes-row q t h =
    rw (h.is_object, append_assoc h.indent (b'{' ∷ (h.body ++ b'}' ∷ [])) t)
      (closes-indent h.indent ((h.body ++ b'}' ∷ []) ++ t) h.is_indent)

strip_commas-sep :
    (q t : Text)
    → IsRow q
    → strip_commas (codes ",\n" ++ (q ++ t)) ≡ codes ",\n" ++ strip_commas (q ++ t)
unfolding strip_commas
strip_commas-sep q t h = rw (closes-row q t h) refl

strip_commas-rows : (rows : List Text) → All IsRow rows → strip_commas (emitted rows) ≡ proper rows
unfolding strip_commas closes emitted proper
strip_commas-rows [] h = refl
strip_commas-rows (r ∷ []) h = strip_commas-row r (codes ",\n]") h.0
strip_commas-rows (r ∷ q ∷ rows) h =
    rw (strip_commas-row r _ h.0, strip_commas-sep q _ h.1.0, strip_commas-rows (q ∷ rows) h.1) refl

strip_commas-kept : (rows : List Text) → All IsRow rows → strip_commas (proper rows) ≡ proper rows
unfolding strip_commas closes proper
strip_commas-kept [] h = refl
strip_commas-kept (r ∷ []) h = strip_commas-row r (codes "\n]") h.0
strip_commas-kept (r ∷ q ∷ []) h =
    rw (strip_commas-row r _ h.0, strip_commas-sep q _ h.1.0, strip_commas-kept (q ∷ []) h.1) refl
strip_commas-kept (r ∷ q ∷ p ∷ rows) h =
    rw (strip_commas-row r _ h.0, strip_commas-sep q _ h.1.0, strip_commas-kept (q ∷ p ∷ rows) h.1)
      refl

-- A list of indented objects, none of which has a comma of its own before a closing bracket: if there
-- is a comma behind the last one, that one goes, and nothing else; if there is none, nothing changes.
pub strip_commas-emitted :
    (rows : List Text)
    → All IsRow rows
    → (strip_commas (codes "[\n" ++ emitted rows) ≡ codes "[\n" ++ proper rows)
      × (strip_commas (codes "[\n" ++ proper rows) ≡ codes "[\n" ++ proper rows)
unfolding strip_commas closes
strip_commas-emitted rows h =
    (rw (strip_commas-rows rows h) refl, rw (strip_commas-kept rows h) refl)
