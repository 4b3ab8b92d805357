-- ===== src/Ctl/Rows.antt =====
-- What cmd/openconnectctl/main.go prints for a row, and its help.
use openconnectd.Base.{
  Bool, true, false, List, [], ◌∷◌, ◌++◌, Option, none, some, Text, codes, if◌then◌else◌,
}
use openconnectd.Base.Int.{ℤ}
use openconnectd.Strings.{format_nat, format_int, is_blank}
use openconnectd.Api.{VersionInfo, Instance, ClientPeer, Session}

unfoldable pub yn : Bool → Text
yn true = codes "yes"
yn false = codes "no"

unfoldable pub or_dash : Text → Text
or_dash s = if is_blank s then codes "-" else s

-- Cells of a row, with a tab between two.
cells : List Text → Text
cells [] = codes "\n"
cells (t ∷ []) = t ++ codes "\n"
cells (t ∷ u ∷ ts) = t ++ codes "\t" ++ cells (u ∷ ts)

abbrev pub or_empty {ℓ} : {A : Type ℓ} → Option (List A) → List A
or_empty none = []
or_empty (some xs) = xs

-- The zero value has empty texts.
abbrev pub version_line : Option VersionInfo → Text
version_line none = codes "openconnectd   ocserv   ()\n"
version_line (some v) =
    codes "openconnectd "
    ++ v.version
    ++ codes "  ocserv "
    ++ v.ocserv_ver
    ++ codes "  ("
    ++ v.ocserv_path
    ++ codes ")\n"

unfoldable pub instance_row : Instance → Text
unfolding cells
instance_row in' = cells (
    in'.name
    ∷ yn in'.up
    ∷ or_dash in'.auth_mode
    ∷ yn in'.camouflage.enabled
    ∷ or_dash in'.pool_cidr
    ∷ format_int in'.client_count
    ∷ or_dash in'.public_endpoint
    ∷ [])

unfoldable pub client_row : ClientPeer → Text
unfolding cells
client_row c = cells (
    c.common_name
    ∷ or_dash c.name
    ∷ or_dash c.auth_mode
    ∷ yn c.suspended
    ∷ or_dash c.cert_serial
    ∷ [])

-- `age t` is `time.Since(t).Round(time.Second).String()`.
module _ (age : ℤ → Text) where
  unfoldable pub since : Option ℤ → Text
  since none = codes "-"
  since (some t) = age t

  unfoldable pub session_row : Session → Text
  unfolding cells
  session_row s = cells (
      s.common_name
      ∷ s.instance_name
      ∷ or_dash s.vpn_address
      ∷ or_dash s.remote_ip
      ∷ format_nat s.rx_bytes
      ∷ format_nat s.tx_bytes
      ∷ yn s.dtls
      ∷ since s.connected_at
      ∷ [])

unfoldable pub usage : Text
usage =
    codes "openconnectctl "
    ++ 0xE2 ∷ 0x80 ∷ 0x94 ∷ codes " control a running openconnectd\n\nUsage:\n"
    ++ codes "  openconnectctl [--config FILE] [--url URL] [--token TOK] <command> [args]\n\n"
    ++ codes "Commands:\n  version\n  instances\n  sessions [instance]\n  clients <instance>\n"
    ++ codes "  config <instance> <common-name>\n  disconnect <instance> <common-name>\n"
    ++ codes "  rm-client <instance> <common-name>\n\n"
    ++ codes
        "URL/token: --url/--token, else OPENCONNECTD_URL / OPENCONNECTD_TOKEN, else --config.\n"
