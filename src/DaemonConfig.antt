-- ===== src/DaemonConfig.antt =====
-- internal/config/config.go: the daemon's settings. YAML is a parameter.
use openconnectd.Base.{Text, codes, [], is_nil, if◌then◌else◌}
use openconnectd.Errors.{Result, ok, err, config_read, config_parse}
use openconnectd.Exec.{Exec, ◌>>=◌, pure, lift, wrapping}
use openconnectd.Host.{Env, Host, read_file}

pub record Config : Type 0 where
  pub listen : Text
  pub token : Text
  pub token_file : Text
  pub ocserv_bin : Text
  pub occtl_bin : Text
  pub ocpasswd_bin : Text
  pub state_dir : Text
  pub config_dir : Text
  pub pki_dir : Text
  pub run_dir : Text
  pub metrics_listen : Text

unfoldable pub default_config : Config
default_config = record {
  listen = codes "127.0.0.1:51990";
  token = [];
  token_file = codes "/etc/openconnectd/token";
  ocserv_bin = [];
  occtl_bin = [];
  ocpasswd_bin = [];
  state_dir = codes "/var/lib/openconnectd/state";
  config_dir = codes "/etc/openconnectd/instances";
  pki_dir = codes "/var/lib/openconnectd/pki";
  run_dir = codes "/run/openconnectd";
  metrics_listen = codes "127.0.0.1:9093";
}

-- yaml.Unmarshal over a value that is there.
abbrev pub Yaml : Type 0
Yaml = Text → Config → Result Config

abbrev parsed : Text → Result Config → Result Config
parsed path (ok c) = ok c
parsed path (err e) = err (config_parse path e)

module _ (env : Env) (yaml : Yaml) where
  -- Load: the defaults, and what the file says over them
  unfoldable pub load : Text → Exec Host Config
  load path = if is_nil path then pure default_config else (do
    data' ← wrapping config_read (read_file env path)
    lift (parsed path (yaml data' default_config)))
