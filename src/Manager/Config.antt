-- ===== src/Manager/Config.antt =====
-- instanceConfig of internal/ocserv/manager.go, and the paths of an instance.
use openconnectd.Base.{Bool, ◌||◌, [], ◌++◌, Text, codes, same, if◌then◌else◌}
use openconnectd.Base.Int.{ℤ, pos, is_pos}
use openconnectd.FilePath.{join}
use openconnectd.Api.{Instance, AuthMode, auth_password, auth_both}
use openconnectd.DaemonConfig
use openconnectd.Params.{parse_listen_port, tun_name, host_only}
use openconnectd.PerUser.{per_user_dir}
use openconnectd.Pki.{ca_cert_path, crl_path, server_cert_path, server_key_path}
use openconnectd.Render.{InstanceConfig, wants_cert}

abbrev pub wants_password : AuthMode → Bool
wants_password mode = same mode auth_password || same mode auth_both

module _ (cfg : DaemonConfig.Config) where
  unfoldable pub config_path : Text → Text
  config_path name = join cfg.config_dir (name ++ codes ".conf")

  unfoldable pub occtl_socket : Text → Text
  occtl_socket name = join cfg.run_dir (name ++ codes ".occtl")

  unfoldable pub run_socket : Text → Text
  run_socket name = join cfg.run_dir (name ++ codes ".sock")

  unfoldable pub ocpasswd_path : Text → Text
  ocpasswd_path name = join cfg.state_dir (name ++ codes ".ocpasswd")

  -- The port of the listen address, or 443
  abbrev listen_port : Instance → ℤ
  listen_port in' = let p = parse_listen_port in'.listen in if is_pos p then p else pos 443

  -- `tcp_port` moves the TCP listener alone.
  unfoldable pub instance_config : Instance → InstanceConfig
  instance_config in' = record {
    name = in'.name;
    tcp_port = if is_pos in'.tcp_port then in'.tcp_port else listen_port in';
    udp_port = if in'.dtls then listen_port in' else pos 0;
    local_bind = in'.local_bind;
    proxy_proto = in'.proxy_proto;
    pool_cidr = in'.pool_cidr;
    pool_cidr_v6 = in'.pool_cidr_v6;
    dns = in'.dns;
    routes = in'.routes;
    auth_mode = in'.auth_mode;
    camouflage = in'.camouflage;
    server_cert = server_cert_path cfg.pki_dir in'.name;
    server_key = server_key_path cfg.pki_dir in'.name;
    ca_cert = if wants_cert in'.auth_mode then ca_cert_path cfg.pki_dir in'.name else [];
    crl_file = if wants_cert in'.auth_mode then crl_path cfg.pki_dir in'.name else [];
    ocpasswd_file = if wants_password in'.auth_mode then ocpasswd_path in'.name else [];
    occtl_socket = occtl_socket in'.name;
    run_socket = run_socket in'.name;
    device = tun_name in'.name;
    config_per_user_dir = per_user_dir cfg in'.name;
    max_clients = pos 0;
    max_same_clients = pos 0;
    default_domain = host_only in'.public_endpoint;
  }
