-- ===== src/Ctl/Laws.antt =====
-- Where the command line client of cmd/openconnectctl/main.go takes the daemon's address and token from.
use openconnectd.Base.{
  ◌≡◌, refl, ◌∙◌, true, false, ◌&&◌, ◌||◌, not, Text, codes, is_nil, Bool-cases, inl, inr,
}
use openconnectd.Errors.{Result, ok, err}
use openconnectd.Host.{Env, Host}
use openconnectd.DaemonConfig
use openconnectd.DaemonConfig.{Yaml, load}
use openconnectd.Ctl.Settings.{
  Flags, or_else, with_file, with_default, default_base, from_env, from_file, resolve,
}

-- `t` is the base and token `u` with what was missing filled in.
record Fills (t u : Text × Text) : Type 0 where
  base : is_nil u.0 ≡ false → t.0 ≡ u.0
  token : is_nil u.1 ≡ false → t.1 ≡ u.1

or_else-filled : (t u : Text) → is_nil t ≡ false → or_else t u ≡ t
or_else-filled t u h = rw h refl

or_else-missing : (t u : Text) → is_nil t ≡ true → or_else t u ≡ u
or_else-missing t u h = rw h refl

or_else-shown : (t u : Text) → is_nil u ≡ false → is_nil (or_else t u) ≡ false
or_else-shown t u h = elim (Bool-cases (is_nil t)) [ inl e ↦ rw e h | inr e ↦ rw (e, or_else) e ]

with_file-Fills : (r : Result DaemonConfig.Config) (u : Text × Text) → Fills (with_file r u) u
with_file-Fills (err e) u = record { base = λ h. refl; token = λ h. refl }
with_file-Fills (ok c) u = record { base = λ h. rw h refl; token = λ h. rw h refl }

-- A base that was there, and a token that was there.
base_is :
    (t u : Text × Text) (v : Text) → Fills t u → u.0 ≡ v → is_nil v ≡ false → (with_default t).0 ≡ v
base_is t u v f e h = rw (f.base (rw e h), e) (or_else-filled v default_base h)

token_is :
    (t u : Text × Text) (v : Text) → Fills t u → u.1 ≡ v → is_nil v ≡ false → (with_default t).1 ≡ v
token_is t u v f e h = f.token (rw e h) ∙ e

module _ (env : Env) (yaml : Yaml) (getenv : Text → Text) where
  from_file-Fills :
      (path : Text) (u : Text × Text) (h : Host) → Fills (from_file env yaml getenv path u h).0 u
  unfolding from_file
  from_file-Fills path u h = elim (Bool-cases ((is_nil u.0 || is_nil u.1) && not (is_nil path))) [
    | inl e ↦ rw e (with_file-Fills (load env yaml path h).0 u)
    | inr e ↦ rw e (record { base = λ n. refl; token = λ n. refl })
  ]

  -- The daemon's address is never empty. A flag that is given wins over the environment, the settings
  -- file and the default; a variable of the environment wins over the file and the default.
  pub resolve_lem :
      (flags : Flags) (h : Host)
      → let (base, token) = (resolve env yaml getenv flags h).0 in
        (is_nil base ≡ false)
        × (is_nil flags.url ≡ false → base ≡ flags.url)
        × (is_nil flags.token ≡ false → token ≡ flags.token)
        × (is_nil flags.url ≡ true
            → is_nil (getenv (codes "OPENCONNECTD_URL")) ≡ false
            → base ≡ getenv (codes "OPENCONNECTD_URL"))
        × (is_nil flags.token ≡ true
            → is_nil (getenv (codes "OPENCONNECTD_TOKEN")) ≡ false
            → token ≡ getenv (codes "OPENCONNECTD_TOKEN"))
  unfolding resolve
  resolve_lem flags h =
      let filled = from_file-Fills flags.config (from_env env yaml getenv flags) h in
      let found = (from_file env yaml getenv flags.config (from_env env yaml getenv flags) h).0 in
      (
        or_else-shown found.0 default_base refl,
        λ given. base_is found _ _ filled (or_else-filled flags.url _ given) given,
        λ given. token_is found _ _ filled (or_else-filled flags.token _ given) given,
        λ missing set. base_is found _ _ filled (or_else-missing flags.url _ missing) set,
        λ missing set. token_is found _ _ filled (or_else-missing flags.token _ missing) set,
      )
