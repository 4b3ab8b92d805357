-- ===== src/Render.antt =====
-- internal/ocserv/config.go: ocserv.conf from an InstanceConfig. `p` appends one line, so a part of
-- the file is a list of lines. `%q` is the parameter `quote`.
pub mod Routes
pub mod Network
pub mod Outcome
pub mod Emitted
pub mod Lines
use openconnectd.Base.{
  ◌≡◌, refl, Bool, true, false, ◌||◌, not, List, [], ◌∷◌, ◌++◌, map, concat, Option, none, some,
  Text, codes, same, is_nil, if◌then◌else◌,
}
use openconnectd.Base.Int.{ℤ, pos, is_pos}
use openconnectd.Strings.{format_int, is_blank}
use openconnectd.Api.{AuthMode, auth_cert, auth_password, auth_both, Camouflage}
use openconnectd.Errors.{
  Result, ok, err, ◌>>=◌, ◌>>◌, refuse, config_name_required, tcp_port_required,
  server_cert_required, config_pool_required, client_ca_needed, secret_empty,
}
use openconnectd.Render.Routes.{dedup_sorted}
use openconnectd.Render.Network.{split_cidr}

pub record InstanceConfig : Type 0 where
  pub name : Text
  pub tcp_port : ℤ
  pub udp_port : ℤ
  pub local_bind : Text
  pub proxy_proto : Bool
  pub pool_cidr : Text
  pub pool_cidr_v6 : Text
  pub dns : List Text
  pub routes : List Text
  pub auth_mode : AuthMode
  pub camouflage : Camouflage
  pub server_cert : Text
  pub server_key : Text
  pub ca_cert : Text
  pub crl_file : Text
  pub ocpasswd_file : Text
  pub occtl_socket : Text
  pub run_socket : Text
  pub device : Text
  pub config_per_user_dir : Text
  pub max_clients : ℤ
  pub max_same_clients : ℤ
  pub default_domain : Text

unfoldable pub validate : InstanceConfig → Result (Unit {0})
validate c = do
  refuse (is_blank c.name) config_name_required
  refuse (not (is_pos c.tcp_port)) tcp_port_required
  refuse (is_nil c.server_cert || is_nil c.server_key) server_cert_required
  refuse (is_nil c.pool_cidr) config_pool_required

unfoldable pub or_default : ℤ → ℤ → ℤ
or_default v def = if is_pos v then v else def

-- A line that stands only under a condition.
abbrev when : Bool → List Text → List Text
when b ls = if b then ls else []

abbrev quoted : Text → Text
quoted t = b'"' ∷ (t ++ codes "\"")

-- `auth == cert || auth == both`
abbrev pub wants_cert : AuthMode → Bool
wants_cert mode = same mode auth_cert || same mode auth_both

abbrev plain_auth : InstanceConfig → Text
plain_auth c = codes "\"plain[passwd=" ++ c.ocpasswd_file ++ codes "]\""

auth_kind_lines : InstanceConfig → List Text
auth_kind_lines c =
    if same c.auth_mode auth_password
    then (codes "auth = " ++ plain_auth c) ∷ []
    else if same c.auth_mode auth_both
    then codes "auth = \"certificate\"" ∷ (codes "enable-auth = " ++ plain_auth c) ∷ []
    else codes "auth = \"certificate\"" ∷ []

cert_lines : InstanceConfig → List Text
cert_lines c =
    (codes "ca-cert = " ++ c.ca_cert)
    ∷ codes "cert-user-oid = 2.5.4.3"
    ∷ when (not (is_nil c.crl_file)) ((codes "crl = " ++ c.crl_file) ∷ [])

auth_lines : InstanceConfig → Result (List Text)
auth_lines c =
    if wants_cert c.auth_mode
    then (do
      refuse (is_nil c.ca_cert) client_ca_needed
      ok (auth_kind_lines c ++ cert_lines c ++ [] ∷ []))
    else ok (auth_kind_lines c ++ [] ∷ [])

listener_lines : InstanceConfig → List Text
listener_lines c =
    (codes "server-cert = " ++ c.server_cert)
      ∷ (codes "server-key = " ++ c.server_key)
      ∷ (codes "tcp-port = " ++ format_int c.tcp_port)
      ∷ when (is_pos c.udp_port) ((codes "udp-port = " ++ format_int c.udp_port) ∷ [])
    ++ when (not (is_nil c.local_bind)) ((codes "listen-host = " ++ c.local_bind) ∷ [])
    ++ when c.proxy_proto (codes "listen-proxy-proto = true" ∷ [])

socket_lines : InstanceConfig → List Text
socket_lines c =
    (codes "socket-file = " ++ c.run_socket)
      ∷ (codes "occtl-socket-file = " ++ c.occtl_socket)
      ∷ codes "use-occtl = true"
      ∷ (codes "device = " ++ c.device)
      ∷ when (not (is_nil c.config_per_user_dir))
          ((codes "config-per-user = " ++ c.config_per_user_dir) ∷ [])
    ++ [] ∷ []

camouflage_lines : Camouflage → Result (List Text)
camouflage_lines c =
    if c.enabled
    then (do
      refuse (is_nil c.secret) secret_empty
      ok (
          codes "camouflage = true"
            ∷ (codes "camouflage_secret = " ++ quoted c.secret)
            ∷ when (not (is_nil c.realm)) ((codes "camouflage_realm = " ++ quoted c.realm) ∷ [])
          ++ [] ∷ []))
    else ok []

full_tunnel : Text
full_tunnel =
    codes "# full tunnel: no explicit route " ++ 0xE2 ∷ 0x87 ∷ 0x92 ∷ codes " default route pushed"

route_lines : InstanceConfig → List Text
route_lines c =
    if is_nil c.routes
    then full_tunnel ∷ []
    else map (λ r. codes "route = " ++ r) (dedup_sorted c.routes)

network_body : InstanceConfig → Text → Text → List Text
network_body c network netmask =
    (codes "ipv4-network = " ++ network)
      ∷ (codes "ipv4-netmask = " ++ netmask)
      ∷ when (not (is_nil c.pool_cidr_v6)) ((codes "ipv6-network = " ++ c.pool_cidr_v6) ∷ [])
    ++ map (λ d. codes "dns = " ++ d) c.dns
    ++ route_lines c
    ++ when (not (is_nil c.default_domain)) ((codes "default-domain = " ++ c.default_domain) ∷ [])
    ++ [] ∷ []

network_lines : InstanceConfig → Result (List Text)
network_lines c = do
  (network, netmask) ← split_cidr c.pool_cidr
  ok (network_body c network netmask)

limit_lines : InstanceConfig → List Text
unfolding or_default
limit_lines c =
    (codes "max-clients = " ++ format_int (or_default c.max_clients (pos 1024)))
    ∷ (codes "max-same-clients = " ++ format_int (or_default c.max_same_clients (pos 2)))
    ∷ codes "try-mtu-discovery = true"
    ∷ codes "cisco-client-compat = true"
    ∷ codes "dtls-legacy = true"
    ∷ []

-- `b.String()`: every line with its newline
unfoldable pub emit : List Text → Text
emit [] = []
emit (l ∷ ls) = l ++ b'\n' ∷ emit ls

module _ (quote : Text → Text) where
  header_lines : InstanceConfig → List Text
  header_lines c =
      (codes "# Generated by openconnectd for instance "
        ++ quote c.name
        ++ codes ". Do not edit by hand.")
      ∷ []
      ∷ []

  -- The lines that are written, in order, or the first error.
  pub render_lines : InstanceConfig → Result (List Text)
  render_lines c = do
    validate c
    auth ← auth_lines c
    camouflage ← camouflage_lines c.camouflage
    network ← network_lines c
    ok (
        header_lines c
        ++ auth
        ++ listener_lines c
        ++ socket_lines c
        ++ camouflage
        ++ network
        ++ limit_lines c)

  pub render : InstanceConfig → Result Text
  render c = do lines ← render_lines c; ok (emit lines)

-- renderPerUserConfig
unfoldable pub render_per_user_config : Text → Text
render_per_user_config static_ip =
    codes "# Generated by openconnectd. Do not edit by hand.\n"
    ++ codes "explicit-ipv4 = "
    ++ static_ip
    ++ codes "\n"

-- For tests: all that a rendering computes with.
unfoldable pub renderer : Unit {0}
unfolding render render_lines validate header_lines auth_lines auth_kind_lines cert_lines
    full_tunnel listener_lines socket_lines camouflage_lines network_lines network_body route_lines
    limit_lines emit
renderer = tt
