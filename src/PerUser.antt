-- ===== src/PerUser.antt =====
-- The config-per-user files of internal/ocserv/manager.go: one for each client with a pinned address.
pub mod Names
pub mod Pins
use openconnectd.Base.{
  ℕ, ◌≡◌, refl, Bool, true, false, ◌||◌, not, List, [], ◌∷◌, ◌++◌, Option, none, some, Text, codes,
  same, is_nil, any, ltb, ◌==◌, if◌then◌else◌,
}
use openconnectd.Strings.{contains_any, is_blank, trim_space}
use openconnectd.FilePath.{clean, join, base}
use openconnectd.Net.Ipv4.{format_ipv4}
use openconnectd.Net.Cidr.{parse_ip_to4}
use openconnectd.Api.{ClientPeer}
use openconnectd.Errors.{
  Error, Result, ok, err, refuse, ◌>>=◌, ◌>>◌, cn_required, cn_control, invalid_cn, cn_separator,
  invalid_static_ip, is_not_exist,
}
use openconnectd.Exec
use openconnectd.Exec.{Exec, continue}
use openconnectd.Host.{Env, Host, call, write_file, remove}
use openconnectd.Render.{render_per_user_config}
use openconnectd.DaemonConfig.{Config}

-- `r < 0x20 || r == 0x7f`; such a rune is one byte
abbrev is_control : ℕ → Bool
is_control c = ltb c 0x20 || c == 0x7f

-- validPerUserName
unfoldable pub valid_per_user_name : Text → Result (Unit {0})
valid_per_user_name cn = do
  refuse (is_nil cn) cn_required
  refuse (same cn (codes ".") || same cn (codes "..")) (invalid_cn cn)
  refuse (contains_any cn (codes "/\\") || contains_any cn (codes "/")) (cn_separator cn)
  refuse (not (same cn (base cn)) || not (same cn (clean cn))) (invalid_cn cn)
  refuse (any is_control cn) cn_control

module _ (cfg : Config) where
  unfoldable pub per_user_dir : Text → Text
  per_user_dir instance' = join cfg.state_dir (instance' ++ codes ".per-user")

  unfoldable pub per_user_path : Text → Text → Result Text
  per_user_path instance' cn = do valid_per_user_name cn; ok (join (per_user_dir instance') cn)

-- `err != nil && !os.IsNotExist(err)`
abbrev unless_missing : Result (Unit {0}) → Result (Unit {0})
unless_missing (ok u) = ok u
unless_missing (err e) = if is_not_exist e then ok tt else err e

module _ (env : Env) where
  pub remove_if_there : Text → Exec Host (Unit {0})
  remove_if_there path h = let (r, h') = remove env path h in (unless_missing r, h')

  pub write_pin : Text → Text → Text → Option (List ℕ) → Exec Host (Unit {0})
  write_pin dir path static_ip none = Exec.raise (invalid_static_ip static_ip)
  write_pin dir path static_ip (some ip) =
      Exec.◌>>=◌ (call env) λ _. write_file env path (render_per_user_config (format_ipv4 ip))

  pub pin_or_clear : Text → Text → Text → Exec Host (Unit {0})
  pin_or_clear dir path static_ip =
      if is_blank static_ip
      then remove_if_there path
      else write_pin dir path static_ip (parse_ip_to4 (trim_space static_ip))

module _ (env : Env) (cfg : Config) where
  pub write_per_user_config : Text → Text → Text → Exec Host (Unit {0})
  write_per_user_config instance' cn static_ip h =
      continue (per_user_path cfg instance' cn)
        (λ path. pin_or_clear env (per_user_dir cfg instance') path static_ip) h

  pub remove_per_user_config : Text → Text → Exec Host (Unit {0})
  remove_per_user_config instance' cn h =
      continue (per_user_path cfg instance' cn) (remove_if_there env) h

  -- One pin for each client that has an address; an error is logged and passed over.
  pub sync_per_user_configs : Text → List ClientPeer → Host → Host
  sync_per_user_configs instance' [] h = h
  sync_per_user_configs instance' (c ∷ cs) h = sync_per_user_configs instance' cs (
      if is_blank c.static_ip
      then h
      else (write_per_user_config instance' c.common_name c.static_ip h).1)

-- For tests.
unfoldable pub pinner : Unit {0}
unfolding write_pin pin_or_clear remove_if_there write_per_user_config remove_per_user_config
    sync_per_user_configs
pinner = tt
