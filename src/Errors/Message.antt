-- ===== src/Errors/Message.antt =====
-- `Error()` of each error. `%q` is a parameter: strconv.Quote needs the tables of printable
-- characters.
use openconnectd.Base.{Text, codes, List, [], ◌∷◌, ◌++◌}
use openconnectd.Strings.{format_nat}
use openconnectd.Errors.{
  Error, instance_name_required, pool_cidr_required, common_name_required, ip_required,
  instance_exists, instance_not_found, client_exists, client_not_found, ensure_ca,
  ensure_server_cert, issue_client, set_password, pin_static_ip, revoke_failed, password_required,
  not_banned, no_ban_list, cn_required, cn_control, invalid_cn, cn_separator, invalid_static_ip,
  config_name_required, tcp_port_required, server_cert_required, config_pool_required,
  client_ca_needed, secret_empty, bad_pool_cidr, pool_not_ipv4, unknown_instance, parse_state,
  user_required, line_too_long, ocpasswd_missing, ocpasswd_failed, ocserv_missing, start_failed,
  not_running, pki_cn_required, corrupt_ca, client_cert_missing, client_key_missing,
  username_required, occtl_ip_required, occtl_missing, occtl_failed, not_banned_here, parse_users,
  parse_ban_list, bad_numeric, config_read, config_parse, empty_base_url, client_cn_required,
  api_code, api_message, api_status, not_exist, system,
}

unfoldable pub join_by : Text → List Text → Text
join_by sep [] = []
join_by sep (t ∷ []) = t
join_by sep (t ∷ u ∷ ts) = t ++ sep ++ join_by sep (u ∷ ts)

module _ (quote : Text → Text) where
  unfoldable pub message : Error → Text
  unfolding join_by
  message instance_name_required = codes "instance name required"
  message pool_cidr_required = codes "pool_cidr required"
  message common_name_required = codes "common_name required"
  message ip_required = codes "ip required"
  message (instance_exists name) = codes "instance " ++ quote name ++ codes " already exists"
  message (instance_not_found name) = codes "instance " ++ quote name ++ codes " not found"
  message (client_exists cn) = codes "client " ++ quote cn ++ codes " already exists"
  message (client_not_found cn) = codes "client " ++ quote cn ++ codes " not found"
  message (ensure_ca e) = codes "ensure CA: " ++ message e
  message (ensure_server_cert e) = codes "ensure server cert: " ++ message e
  message (issue_client e) = codes "issue client cert: " ++ message e
  message (set_password e) = codes "set password: " ++ message e
  message (pin_static_ip e) = codes "pin static ip: " ++ message e
  message (revoke_failed e) = codes "revoke: " ++ message e
  message (password_required mode) = codes "password required for " ++ mode ++ codes " auth"
  message (not_banned ip) = ip ++ codes " is not banned"
  message (no_ban_list names) =
      codes "could not read ban list from any instance (" ++ join_by (codes ", ") names ++ codes ")"
  message cn_required = codes "common name required"
  message cn_control = codes "invalid common name: control character"
  message (invalid_cn cn) = codes "invalid common name " ++ quote cn
  message (cn_separator cn) =
      codes "invalid common name " ++ quote cn ++ codes ": path separators not allowed"
  message (invalid_static_ip ip) = codes "invalid static ip " ++ quote ip
  message config_name_required = codes "ocserv: instance name required"
  message tcp_port_required = codes "ocserv: tcp-port required"
  message server_cert_required = codes "ocserv: server cert+key required"
  message config_pool_required = codes "ocserv: pool CIDR required"
  message client_ca_needed = codes "ocserv: cert auth needs a client CA"
  message secret_empty = codes "ocserv: camouflage enabled but secret empty"
  message (bad_pool_cidr cidr) =
      codes "ocserv: bad pool CIDR " ++ quote cidr ++ codes ": invalid CIDR address: " ++ cidr
  message (pool_not_ipv4 cidr) = codes "ocserv: pool CIDR " ++ quote cidr ++ codes " must be IPv4"
  message (unknown_instance name) = codes "state: unknown instance " ++ quote name
  message (parse_state path e) = codes "state: parse " ++ path ++ codes ": " ++ message e
  message user_required = codes "ocpasswd: user required"
  message line_too_long = codes "bufio.Scanner: token too long"
  message (ocpasswd_missing e) = codes "ocpasswd: tool not found (install ocserv): " ++ message e
  message (ocpasswd_failed user e out) =
      codes "ocpasswd set " ++ quote user ++ codes ": " ++ message e ++ codes ": " ++ out
  message (ocserv_missing e) = codes "ocserv: binary not found (install ocserv): " ++ message e
  message (start_failed name e) = codes "ocserv start " ++ quote name ++ codes ": " ++ message e
  message (not_running name) = codes "ocserv reload " ++ quote name ++ codes ": not running"
  message pki_cn_required = codes "pki: common name required"
  message (corrupt_ca name) = codes "pki: corrupt CA files for " ++ quote name
  message (client_cert_missing serial e) =
      codes "pki: client cert " ++ serial ++ codes " not found: " ++ message e
  message (client_key_missing serial e) =
      codes "pki: client key " ++ serial ++ codes " not found: " ++ message e
  message username_required = codes "occtl: username required"
  message occtl_ip_required = codes "occtl: ip required"
  message (occtl_missing e) = codes "occtl: tool not found (install ocserv): " ++ message e
  message (occtl_failed args e out) =
      codes "occtl " ++ join_by (codes " ") args ++ codes ": " ++ message e ++ codes ": " ++ out
  message (not_banned_here ip) = codes "occtl: " ++ ip ++ codes " is not banned on this instance"
  message (parse_users e) = codes "occtl: parse show users: " ++ message e
  message (parse_ban_list e) = codes "occtl: parse ban list: " ++ message e
  message (bad_numeric s e) = codes "occtl: bad numeric " ++ quote s ++ codes ": " ++ message e
  message (config_read e) = codes "config: " ++ message e
  message (config_parse path e) = codes "config: parse " ++ path ++ codes ": " ++ message e
  message empty_base_url = codes "openconnectd: empty base URL"
  message client_cn_required = codes "openconnectd: common_name required"
  message (api_code code text) = codes "openconnectd: " ++ code ++ codes ": " ++ text
  message (api_message text) = codes "openconnectd: " ++ text
  message (api_status status text) =
      codes "openconnectd: HTTP " ++ format_nat status ++ codes ": " ++ text
  message (not_exist op path) = op ++ codes " " ++ path ++ codes ": no such file or directory"
  message (system text) = text
