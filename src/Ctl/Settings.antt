-- ===== src/Ctl/Settings.antt =====
-- Where cmd/openconnectctl/main.go takes the address and the token from.
use openconnectd.Base.{◌&&◌, ◌||◌, not, ◌++◌, Text, codes, is_nil, if◌then◌else◌}
use openconnectd.Errors.{Result, ok, err}
use openconnectd.Host.{Env, Host}
use openconnectd.DaemonConfig
use openconnectd.DaemonConfig.{Yaml, load}

pub record Flags : Type 0 where
  pub config : Text
  pub url : Text
  pub token : Text

abbrev pub or_else : Text → Text → Text
or_else t u = if is_nil t then u else t

-- What the settings file adds to a base and a token.
abbrev pub with_file : Result DaemonConfig.Config → Text × Text → Text × Text
with_file (err e) (base, token) = (base, token)
with_file (ok c) (base, token) = (
  (if is_nil base && not (is_nil c.listen) then codes "http://" ++ c.listen else base),
  or_else token c.token,
)

abbrev pub default_base : Text
default_base = codes "http://127.0.0.1:51990"

abbrev pub with_default : Text × Text → Text × Text
with_default (base, token) = (or_else base default_base, token)

module _ (env : Env) (yaml : Yaml) (getenv : Text → Text) where
  abbrev pub from_env : Flags → Text × Text
  from_env flags = (
    or_else flags.url (getenv (codes "OPENCONNECTD_URL")),
    or_else flags.token (getenv (codes "OPENCONNECTD_TOKEN")),
  )

  unfoldable pub from_file : Text → Text × Text → Host → (Text × Text) × Host
  from_file path (base, token) h =
      if (is_nil base || is_nil token) && not (is_nil path)
      then (let (r, h') = load env yaml path h in (with_file r (base, token), h'))
      else ((base, token), h)

  unfoldable pub resolve : Flags → Host → (Text × Text) × Host
  unfolding from_file
  resolve flags h =
      let (found, h') = from_file flags.config (from_env flags) h in (with_default found, h')
