-- ===== src/Params.antt =====
-- The pure helpers of internal/ocserv/manager.go: defaults, ports and names.
pub mod Json
pub mod Patch
pub mod Laws
pub mod Listen
use openconnectd.Base.{
  ℕ, suc, ◌≡◌, refl, Bool, true, false, ◌||◌, not, List, [], ◌∷◌, ◌++◌, Option, none, some, Text,
  codes, same, is_nil, take, drop, if◌then◌else◌,
}
use openconnectd.Base.Int.{ℤ, pos, negsuc, same_int}
use openconnectd.Strings.{trim_space, is_blank, last_index_byte, index_byte, atoi}
use openconnectd.Net.HostPort.{split_host_port}
use openconnectd.Api.{AuthMode, Instance}

unfoldable pub or_string : Text → Text → Text
or_string v def = if is_blank v then def else v

unfoldable pub or_auth : AuthMode → AuthMode → AuthMode
or_auth v def = if is_nil v then def else v

unfoldable pub bool_or : Option Bool → Bool → Bool
bool_or none def = def
bool_or (some b) def = b

-- `if err == nil { return p }`, and else the next way to read the port
abbrev or_else : Option ℤ → Option ℤ → Option ℤ
or_else (some p) q = some p
or_else none q = q

port_of_host_port : Text → Option ℤ
port_of_host_port s = elim (split_host_port s) [ none ↦ none | some (host, port) ↦ atoi port ]

port_of_last_colon : Text → Option ℤ
port_of_last_colon s = elim (last_index_byte s b':') [
  | none ↦ none
  | some i ↦ atoi (drop (suc i) s)
]

abbrev or_zero : Option ℤ → ℤ
or_zero none = pos 0
or_zero (some p) = p

-- After the trim: an empty text is port 0.
port_of : Text → ℤ
port_of [] = pos 0
port_of (c ∷ s) =
    or_zero
      (or_else (port_of_host_port (c ∷ s)) (or_else (port_of_last_colon (c ∷ s)) (atoi (c ∷ s))))

unfoldable pub parse_listen_port : Text → ℤ
unfolding port_of port_of_host_port port_of_last_colon
parse_listen_port listen = port_of (trim_space listen)

-- `n[:15]` if the name is longer
unfoldable pub tun_name : Text → Text
tun_name instance' = take 15 (codes "oc-" ++ instance')

unfoldable pub host_only : Text → Text
host_only endpoint =
    if is_nil endpoint
    then []
    else elim (split_host_port endpoint) [ none ↦ endpoint | some (host, port) ↦ host ]

unfoldable pub hosts_of : Text → List Text
unfolding host_only
hosts_of endpoint = let h = host_only endpoint in if is_nil h then [] else h ∷ []

abbrev same_bool : Bool → Bool → Bool
same_bool true b = b
same_bool false b = not b

-- Whether a patch changed what ocserv picks up only by rebinding.
unfoldable pub listeners_differ : Instance → Instance → Bool
listeners_differ a b =
    not (same a.listen b.listen)
    || not (same_int a.tcp_port b.tcp_port)
    || not (same_bool a.dtls b.dtls)
    || not (same a.local_bind b.local_bind)
    || not (same_bool a.proxy_proto b.proxy_proto)

ports :
    (parse_listen_port (codes ":443") ≡ pos 443)
    × (parse_listen_port (codes " 0.0.0.0:8443\n") ≡ pos 8443)
    × (parse_listen_port (codes "1:2:90") ≡ pos 90)
    × (parse_listen_port (codes "4443") ≡ pos 4443)
    × (parse_listen_port (codes "host:-5") ≡ negsuc 4)
    × (parse_listen_port (codes "host:x") ≡ pos 0)
unfolding parse_listen_port trim_space split_host_port last_index_byte index_byte atoi
ports = (refl, refl, refl, refl, refl, refl)

hosts :
    (hosts_of (codes "vpn.example.com:443") ≡ codes "vpn.example.com" ∷ [])
    × (hosts_of [] ≡ [])
    × (tun_name (codes "a-very-long-name") ≡ codes "oc-a-very-long-")
unfolding hosts_of split_host_port last_index_byte index_byte tun_name
hosts = (refl, refl, refl)
