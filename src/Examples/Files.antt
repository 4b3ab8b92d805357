-- ===== src/Examples/Files.antt =====
-- The pins, the password file and the rendered config at concrete inputs.
use openconnectd.Base.Int.{pos}
use openconnectd.Base.{false}
use openconnectd.Render.Network.{split_cidr}
use openconnectd.Net.Cidr.{parse_cidr}
use openconnectd.Net.Cidr.{cidr_mask}
use openconnectd.Render.{renderer, render_lines}
use openconnectd.Render.Lines.{IsPlain, lines_of-render}
use openconnectd.FilePath.{is_rooted, stack_of}
use openconnectd.Net.Ipv6.{parse_addr}
use openconnectd.Net.Cidr.{parse_ip_to4}
use openconnectd.Host.{call}
use openconnectd.Strings.Space.{trim_space}
use openconnectd.Strings.{index_byte}
use openconnectd.Strings.{has_prefix}
use openconnectd.Strings.{contains_any}
use openconnectd.PerUser.{per_user_dir}
use openconnectd.Ocpasswd.{users_of}
use openconnectd.Host.{write_file}
use openconnectd.Host.{read_file}
use openconnectd.FilePath.{join}
use openconnectd.FilePath.{clean}
use openconnectd.FilePath.{base}
use openconnectd.Base.Dict.{lookup}
use openconnectd.Base.{
  suc, ◌≡◌, ◌≢◌, refl, ap, true, false, ◌↔◌, List, [], ◌∷◌, ◌++◌, none, some, Text, codes, arith,
  any, same, same_iff,
}
use openconnectd.Errors.{Result, ok, err, is_ok}
use openconnectd.FilePath.Laws.{IsCleanDir}
use openconnectd.Host.{Host, done}
use openconnectd.Host.Laws.{file}
use openconnectd.Host.Frame.{Spares}
use openconnectd.PerUser.{valid_per_user_name, per_user_path, pinner, write_per_user_config}
use openconnectd.PerUser.Names.{is_safe_name, valid_per_user_name_iff, per_user_path_lem}
use openconnectd.PerUser.Pins.{Pinned, write_per_user_config_lem, Spares-write_per_user_config}
use openconnectd.Render.{InstanceConfig, render}
use openconnectd.Render.Outcome.{IsRenderable, render_iff}
use openconnectd.Render.Emitted.{lines_of}
use openconnectd.Render.Routes.{dedup_sorted}
use openconnectd.Render.Routes.Laws.{is_ascending, dedup_sorted_lem}
use openconnectd.Ocpasswd.{Ocpasswd, scan, delete_user, list_users}
use openconnectd.Ocpasswd.Users.{has_user}
use openconnectd.Ocpasswd.Laws.{Deleted, delete_user_lem, delete_user-ok, list_users_lem}
use openconnectd.Manager.Config.{instance_config}
use openconnectd.Examples.{no_camouflage, fine, no_files, cfg, vpn}

valid_per_user_name_iff_example :
    (is_ok (valid_per_user_name (codes "../ann")) ≡ true) ↔ (is_safe_name (codes "../ann") ≡ true)
valid_per_user_name_iff_example = valid_per_user_name_iff (codes "../ann")

abbrev text_of : Result Text → Text
text_of (ok t) = t
text_of (err e) = []

differ : (s t : Text) → same s t ≡ false → s ≢ t
differ s t h e = ground (arith, same_iff s t)

lib-IsCleanDir : IsCleanDir cfg.state_dir
unfolding is_rooted stack_of clean same
lib-IsCleanDir = record { rooted = refl; deep = λ e. ground arith; cleaned = refl }

per_user_path_lem_example :
    (codes "/var/lib/vpn.per-user/ann"
      ≡ cfg.state_dir ++ b'/' ∷ (codes "vpn" ++ codes ".per-user") ++ b'/' ∷ codes "ann")
    × (is_safe_name (codes "ann") ≡ true)
unfolding same per_user_path valid_per_user_name contains_any base clean join per_user_dir
per_user_path_lem_example =
    per_user_path_lem cfg (codes "vpn") (codes "ann") (codes "/var/lib/vpn.per-user/ann")
      lib-IsCleanDir refl refl

Spares-write_per_user_config_example :
    Spares
      (codes "/var/lib/vpn.per-user/bob")
      (write_per_user_config fine cfg (codes "vpn") (codes "ann") (codes "10.8.0.7"))
unfolding same per_user_path valid_per_user_name contains_any base clean join per_user_dir
Spares-write_per_user_config_example =
    Spares-write_per_user_config fine cfg (codes "vpn") (codes "ann") (codes "10.8.0.7")
      (codes "/var/lib/vpn.per-user/bob")
      (λ e.
        differ (codes "/var/lib/vpn.per-user/ann") (codes "/var/lib/vpn.per-user/bob") refl
          (ap text_of e))

write_per_user_config_lem_example :
    (path : Text) × (per_user_path cfg (codes "vpn") (codes "ann") ≡ ok path)
    × Pinned (codes "10.8.0.7") (
        file path
          (write_per_user_config fine cfg
            (codes "vpn")
            (codes "ann")
            (codes "10.8.0.7")
            no_files).1)
unfolding same per_user_path valid_per_user_name contains_any base clean join per_user_dir pinner
    trim_space parse_ip_to4 parse_addr call write_file
write_per_user_config_lem_example =
    write_per_user_config_lem fine cfg (codes "vpn") (codes "ann") (codes "10.8.0.7") no_files refl

abbrev vpn_config : InstanceConfig
vpn_config = instance_config cfg vpn

render_iff_example : (is_ok (render (λ t. t) vpn_config) ≡ true) ↔ IsRenderable vpn_config
render_iff_example = render_iff (λ t. t) vpn_config

abbrev routes : List Text
routes = codes "10.1.0.0/16" ∷ codes "10.0.0.0/16" ∷ codes "10.1.0.0/16" ∷ []

dedup_sorted_lem_example :
    (is_ascending (dedup_sorted routes) ≡ true)
    × ((s : Text) → any (same s) (dedup_sorted routes) ≡ any (same s) routes)
dedup_sorted_lem_example = dedup_sorted_lem routes

abbrev passwd : Ocpasswd
passwd = record { bin = []; file = codes "/var/lib/vpn.ocpasswd" }

abbrev content : Text
content = codes "# users\nann:*:h\r\nbob:*:k\n"

abbrev content_lines : List Text
content_lines = codes "# users" ∷ codes "ann:*:h" ∷ codes "bob:*:k" ∷ []

abbrev with_passwd : Host
with_passwd = record { files = (codes "/var/lib/vpn.ocpasswd", content) ∷ []; calls = 0 }

delete_user_lem_example :
    Deleted passwd.file
      (codes "ann")
      content_lines
      (delete_user fine passwd (codes "ann") with_passwd).1
unfolding lookup same scan delete_user read_file users_of trim_space has_prefix index_byte
    write_file
delete_user_lem_example =
    delete_user_lem fine passwd (codes "ann") content content_lines with_passwd refl refl refl

delete_user-ok_example :
    (file passwd.file with_passwd ≡ none
      → (delete_user fine passwd (codes "ann") with_passwd).0 ≡ ok tt)
    × ((c : Text) (ls : List Text)
        → file passwd.file with_passwd ≡ some c
        → scan c ≡ some ls
        → fine.outcome (suc with_passwd.calls) ≡ done
        → (delete_user fine passwd (codes "ann") with_passwd).0 ≡ ok tt)
delete_user-ok_example = delete_user-ok fine passwd (codes "ann") with_passwd refl

list_users_lem_example :
    (file passwd.file with_passwd ≡ none → (list_users fine passwd with_passwd).0 ≡ ok [])
    × ((c : Text) (ls : List Text)
        → file passwd.file with_passwd ≡ some c
        → scan c ≡ some ls
        → (users : List Text) × ((list_users fine passwd with_passwd).0 ≡ ok users)
          × (any (λ u. same u (codes "bob")) users ≡ has_user (codes "bob") ls))
list_users_lem_example = list_users_lem fine passwd (codes "bob") with_passwd refl

abbrev plain : InstanceConfig
plain = record {
  name = codes "vpn";
  tcp_port = pos 443;
  udp_port = pos 443;
  local_bind = [];
  proxy_proto = false;
  pool_cidr = codes "10.8.0.0/24";
  pool_cidr_v6 = [];
  dns = codes "1.1.1.1" ∷ [];
  routes = routes;
  auth_mode = codes "cert";
  camouflage = no_camouflage;
  server_cert = codes "/pki/server.pem";
  server_key = codes "/pki/server.key";
  ca_cert = codes "/pki/ca.pem";
  crl_file = [];
  ocpasswd_file = [];
  occtl_socket = codes "/run/vpn.occtl";
  run_socket = codes "/run/vpn.sock";
  device = codes "oc-vpn";
  config_per_user_dir = [];
  max_clients = pos 0;
  max_same_clients = pos 0;
  default_domain = [];
}

abbrev rendered : Text
rendered = text_of (render (λ t. t) plain)

plain-IsPlain : IsPlain (λ t. t) plain
plain-IsPlain = record {
  name = refl;
  local_bind = refl;
  pool_cidr_v6 = refl;
  dns = refl;
  routes = refl;
  secret = refl;
  realm = refl;
  server_cert = refl;
  server_key = refl;
  ca_cert = refl;
  crl_file = refl;
  ocpasswd_file = refl;
  occtl_socket = refl;
  run_socket = refl;
  device = refl;
  config_per_user_dir = refl;
  default_domain = refl;
}

lines_of-render_example : render_lines (λ t. t) plain ≡ ok (lines_of rendered)
unfolding renderer trim_space same split_cidr parse_cidr index_byte parse_addr cidr_mask
lines_of-render_example = lines_of-render (λ t. t) plain rendered plain-IsPlain refl
