-- ===== src/Metrics/Labels.antt =====
-- escapeLabel and labels of internal/metrics/exporter.go, and how Prometheus reads a label's value.
use openconnectd.Base.{
  ℕ, ◌≡◌, refl, ap, Bool, true, false, List, [], ◌∷◌, ◌++◌, Option, none, some, Text, codes, ◌==◌,
  if◌then◌else◌, append_assoc, arith,
}

-- What the replacer puts for a byte.
escape_byte : ℕ → Text
escape_byte c =
    if c == b'\\'
    then b'\\' ∷ b'\\' ∷ []
    else if c == b'"'
    then b'\\' ∷ b'"' ∷ []
    else if c == b'\n'
    then b'\\' ∷ b'n' ∷ []
    else c ∷ []

unfoldable pub escape_label : Text → Text
unfolding escape_byte
escape_label [] = []
escape_label (c ∷ s) = escape_byte c ++ escape_label s

abbrev pair : Text × Text → Text
pair (k, v) = k ++ codes "=\"" ++ escape_label v ++ codes "\""

more_pairs : List (Text × Text) → Text
more_pairs [] = []
more_pairs (p ∷ ps) = codes "," ++ pair p ++ more_pairs ps

unfoldable pub labels : List (Text × Text) → Text
unfolding more_pairs
labels [] = []
labels (p ∷ ps) = codes "{" ++ pair p ++ more_pairs ps ++ codes "}"

-- The exposition format: a value ends at the first quote that no backslash stands before; a newline ends
-- the line. It is given with what is behind the quote.
abbrev meaning : ℕ → Option ℕ
meaning c =
    if c == b'n'
    then some b'\n'
    else if c == b'\\'
    then some b'\\'
    else if c == b'"'
    then some b'"'
    else none

abbrev with_byte : ℕ → Option (Text × Text) → Option (Text × Text)
with_byte c none = none
with_byte c (some (v, rest)) = some (c ∷ v, rest)

abbrev with_meaning : Option ℕ → Option (Text × Text) → Option (Text × Text)
with_meaning none o = none
with_meaning (some c) o = with_byte c o

-- `escaped`: behind a backslash
read_value : Bool → Text → Option (Text × Text)
read_value escaped [] = none
read_value true (c ∷ s) = with_meaning (meaning c) (read_value false s)
read_value false (c ∷ s) =
    let plain = with_byte c (read_value false s) in
    let after = read_value true s in
    if c == b'"'
    then some ([], s)
    else if c == b'\n'
    then none
    else if c == b'\\'
    then after
    else plain

unfoldable pub read_label : Text → Option (Text × Text)
unfolding read_value
read_label s = read_value false s

read-escape_byte :
    (c : ℕ) (s : Text) → read_value false (escape_byte c ++ s) ≡ with_byte c (read_value false s)
unfolding read_value escape_byte
read-escape_byte c s = ground arith

-- Whatever a name holds, Prometheus reads it as it is, and goes on behind it.
pub read_label-escape_label :
    (v rest : Text) → read_label (escape_label v ++ b'"' ∷ rest) ≡ some (v, rest)
unfolding read_label escape_label
read_label-escape_label [] rest = unfold read_value in refl
read_label-escape_label (c ∷ v) rest =
    rw (append_assoc, read-escape_byte) (ap (with_byte c) (read_label-escape_label v rest))
