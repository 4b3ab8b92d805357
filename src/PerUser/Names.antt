-- ===== src/PerUser/Names.antt =====
-- Which common names internal/ocserv/manager.go lets into a path, and the path that they give.
use openconnectd.Base.{
  ◌≡◌, refl, ◌∙◌, ap, ◌↔◌, Bool, true, ◌||◌, ◌&&◌, not, [], ◌∷◌, ◌++◌, Text, codes, same_iff, any,
  all, ◌==◌, arith, inl, inr,
}
use openconnectd.Strings.{contains_any}
use openconnectd.FilePath.{clean, join, base}
use openconnectd.FilePath.Laws.{
  is_element, lacks_slash, IsCleanDir, join-IsCleanDir, join-IsCleanDir_lem, base-is_element,
  clean-is_element,
}
use openconnectd.Errors.{ok, is_ok, Result-cases}
use openconnectd.DaemonConfig.{Config}
use openconnectd.PerUser.{is_control, valid_per_user_name, per_user_dir, per_user_path}

-- A single element of a path, with no backslash and no control character.
abbrev pub is_safe_name : Text → Bool
is_safe_name cn =
    is_element cn && (all (λ c. not (c == b'\\')) cn && all (λ c. not (is_control c)) cn)

any-control : (cn : Text) → any is_control cn ≡ not (all (λ c. not (is_control c)) cn)
any-control [] = refl
any-control (c ∷ cn) = ground (arith, any-control cn)

contains_any-separators :
    (cn : Text)
    → (contains_any cn (codes "/\\") || contains_any cn (codes "/"))
      ≡ not (lacks_slash cn && all (λ c. not (c == b'\\')) cn)
unfolding contains_any
contains_any-separators [] = refl
contains_any-separators (c ∷ cn) = ground (arith, contains_any-separators cn)

-- A common name is accepted exactly if it is a single element of a path with no backslash and no
-- control character.
pub valid_per_user_name_iff :
    (cn : Text) → (is_ok (valid_per_user_name cn) ≡ true) ↔ (is_safe_name cn ≡ true)
unfolding valid_per_user_name
valid_per_user_name_iff cn = (
  λ h. ground (arith, contains_any-separators cn, any-control cn),
  λ h. ground (
    arith,
    contains_any-separators cn,
    any-control cn,
    base-is_element cn,
    clean-is_element cn,
    same_iff cn (base cn),
    same_iff cn (clean cn),
  ),
)

per_user_path-ok :
    (cfg : Config) (instance' cn p : Text)
    → per_user_path cfg instance' cn ≡ ok p
    → (is_safe_name cn ≡ true) × (p ≡ join (per_user_dir cfg instance') cn)
unfolding per_user_path
per_user_path-ok cfg instance' cn p e = elim (Result-cases (valid_per_user_name cn)) [
  | inl (u, valid) ↦ ((valid_per_user_name_iff cn).0 (ap is_ok valid), ground arith)
  | inr (bad, refused) ↦ ground arith
]

-- With a clean absolute state directory and an instance whose directory is one element of a path,
-- the pin of a client is a file directly in that directory, named by the common name as it is.
pub per_user_path_lem :
    (cfg : Config) (instance' cn p : Text)
    → IsCleanDir cfg.state_dir
    → is_element (instance' ++ codes ".per-user") ≡ true
    → per_user_path cfg instance' cn ≡ ok p
    → (p ≡ cfg.state_dir ++ b'/' ∷ (instance' ++ codes ".per-user") ++ b'/' ∷ cn)
      × (is_safe_name cn ≡ true)
unfolding per_user_dir
per_user_path_lem cfg instance' cn p d i e =
    let (safe, eq) = per_user_path-ok cfg instance' cn p e in
    let name = instance' ++ codes ".per-user" in
    (
      eq
          ∙ ap (λ t. join t cn) (join-IsCleanDir_lem d name i)
          ∙ join-IsCleanDir_lem (join-IsCleanDir d name i) cn (ground arith),
      safe,
    )
