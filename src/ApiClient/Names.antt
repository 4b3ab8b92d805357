-- ===== src/ApiClient/Names.antt =====
-- The names that pkg/api/client.go can put into a path, and what they are escaped to.
use openconnectd.Base.{◌≡◌, refl, true, false, [], ◌∷◌, some, Text, codes, is_nil, same_iff, arith}
use openconnectd.HttpApi.Url.{path_escape, path_unescape}
use openconnectd.HttpApi.Url.Laws.{AreBytes, path_unescape-path_escape}
use openconnectd.HttpApi.Mux.{is_value, is_dots}

-- A name that a segment of a path can stand for.
pub record IsName (n : Text) : Type 0 where
  pub bytes : AreBytes n
  pub some_value : is_value n ≡ true
  pub no_dots : is_dots n ≡ false

-- An escaped name that has nothing to unescape is the name.
plain-path_escape : (n t : Text) → AreBytes n → path_unescape t ≡ some t → path_escape n ≡ t → n ≡ t
plain-path_escape n t h plain e =
    let back : path_unescape t ≡ some n = rw (← e) (path_unescape-path_escape n h) in cc

dots-path_escape : (n : Text) → IsName n → is_dots (path_escape n) ≡ false
dots-path_escape n h =
    let one : path_unescape (codes ".") ≡ some (codes ".") = unfold path_unescape in refl in
    let two : path_unescape (codes "..") ≡ some (codes "..") = unfold path_unescape in refl in
    ground (
      arith,
      h.no_dots,
      plain-path_escape n (codes ".") h.bytes one,
      plain-path_escape n (codes "..") h.bytes two,
      same_iff (path_escape n) (codes "."),
      same_iff (path_escape n) (codes ".."),
      same_iff n (codes "."),
      same_iff n (codes ".."),
    )

nil-path_escape : (n : Text) → IsName n → is_nil (path_escape n) ≡ false
nil-path_escape n h = go (path_escape n) refl
  where
    go : (t : Text) → path_escape n ≡ t → is_nil t ≡ false
    go (c ∷ t) e = refl
    go [] e =
        let empty : n ≡ [] = plain-path_escape n [] h.bytes (unfold path_unescape in refl) e in
        let v : is_value [] ≡ true = rw empty at h.some_value in cc

-- What a name is escaped to, without the escape.
pub record IsEscape (e n : Text) : Type 0 where
  pub is_read : path_unescape e ≡ some n
  pub is_name : is_value n ≡ true
  pub no_dots : is_dots e ≡ false
  pub not_empty : is_nil e ≡ false

pub path_escape-IsEscape : (n : Text) → IsName n → IsEscape (path_escape n) n
path_escape-IsEscape n h = record {
  is_read = path_unescape-path_escape n h.bytes;
  is_name = h.some_value;
  no_dots = dots-path_escape n h;
  not_empty = nil-path_escape n h;
}
