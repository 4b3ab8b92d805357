-- ===== src/Examples/Lives.antt =====
-- What is read from a running ocserv, for internal/ocserv/occtl.go, internal/ocserv/manager.go and
-- internal/metrics/exporter.go, at concrete lists.
use openconnectd.Strings.Space.{trim_space}
use openconnectd.Store.{list_instances}
use openconnectd.Base.Dict.{values}
use openconnectd.Base.Dict.{lookup}
use openconnectd.Base.{same}
use openconnectd.Base.{◌≡◌, refl, true, false, List, [], ◌∷◌, ◌++◌, some, Text, codes, length}
use openconnectd.Errors.{ok, Returns, is_ok}
use openconnectd.Occtl.{Reader}
use openconnectd.Occtl.Commas.{IsRow, strip_commas, emitted, proper, strip_commas-emitted}
use openconnectd.Manager.{Setting, World}
use openconnectd.Manager.Reach.{booted}
use openconnectd.Manager.Live.{bans, unban}
use openconnectd.Manager.Live.Bans.{bans_lem}
use openconnectd.Manager.Live.Report.{is_banned, is_scored}
use openconnectd.Manager.Live.Unban.{at_call, behind, lets_go, unban_lem}
use openconnectd.Metrics.Labels.{escape_label, read_label, read_label-escape_label}
use openconnectd.Metrics.Scrape.{manager_source, total, sessions-total}
use openconnectd.Examples.{setting, two, no_files, path, cfg}

abbrev world : World
world = booted path (codes "ocserv") no_files two

-- The list of bans that internal/ocserv/occtl_test.go copied from occtl has the first row.
abbrev body : Text
body =
    codes "\n    \"IP\":  \"62.220.114.104\",\n    \"Since\":  \"2026-07-21 23:05\",\n"
    ++ codes "    \"_Since\":  \"   ?   \",\n    \"Score\":  54\n  "

abbrev row_of : Text → Text
row_of t = codes "  " ++ b'{' ∷ (t ++ b'}' ∷ [])

abbrev points : Text
points = codes "\n    \"IP\":  \"130.12.180.101\",\n    \"Score\":  1\n  "

abbrev rows : List Text
rows = row_of body ∷ row_of points ∷ []

first-IsRow : IsRow (row_of body)
unfolding strip_commas
first-IsRow = record {
  indent = codes "  ";
  body = body;
  is_indent = refl;
  is_object = refl;
  is_clean = refl;
}

second-IsRow : IsRow (row_of points)
unfolding strip_commas
second-IsRow = record {
  indent = codes "  ";
  body = points;
  is_indent = refl;
  is_object = refl;
  is_clean = refl;
}

strip_commas-emitted_example :
    (strip_commas (codes "[\n" ++ emitted rows) ≡ codes "[\n" ++ proper rows)
    × (strip_commas (codes "[\n" ++ proper rows) ≡ codes "[\n" ++ proper rows)
strip_commas-emitted_example = strip_commas-emitted rows (first-IsRow, (second-IsRow, tt))

-- Both lists hold one address, which has a session too.
abbrev one_row : Reader
one_row = record {
  parse_float = λ s. ok 1;
  unmarshal_users = λ number s. ok (
      record {
        id = codes "1";
        username = codes "ann";
        vhost = [];
        device = codes "tun0";
        remote_ip = codes "10.0.0.1";
        ipv4 = codes "10.8.0.7";
        rx = 5;
        tx = 7;
        raw_connected = codes "1700000000";
        user_agent = [];
        dtls_cipher = codes "(none)";
        session = codes "s";
      }
      ∷ []);
  unmarshal_bans = λ number s. ok (record { ip = codes "10.0.0.1"; since = []; score = 30 } ∷ []);
}

-- occtl prints a list that is not empty, and lets every address go.
abbrev attacked : Setting
attacked = record setting {
  cfg = record cfg { occtl_bin = codes "occtl" };
  prints = λ bin args n. (ok tt, codes "[1]");
  reader = one_row;
}

bans_lem_example :
    Returns
      (λ out. (n ip : Text) → is_banned n ip out ≡ true → is_scored n ip out ≡ false)
      (bans attacked world).0
unfolding booted same lookup
bans_lem_example = bans_lem attacked world refl (refl, (refl, tt))

-- The same without a path for occtl, as in the default settings.
abbrev pathless : Setting
pathless = record attacked { cfg = record cfg { occtl_bin = [] } }

unban_lem_example :
    let names = codes "vpn" ∷ codes "lab" ∷ [] in
    ((unban pathless (codes "10.0.0.1") world).1
      ≡ at_call (behind pathless (codes "10.0.0.1") names 0) world)
    × (is_ok (unban pathless (codes "10.0.0.1") world).0
        ≡ lets_go pathless (codes "10.0.0.1") names 0)
unfolding list_instances values booted
unban_lem_example = unban_lem pathless (codes "10.0.0.1") world (unfold trim_space in refl)

sessions-total_example :
    Returns
      (λ xs. total ((manager_source attacked).list_instances world) xs ≡ length xs)
      ((manager_source attacked).sessions [] world).0
unfolding booted same lookup
sessions-total_example = sessions-total attacked world refl (refl, (refl, tt))

read_label-escape_label_example :
    read_label (escape_label (codes "a\"b\\\n") ++ b'"' ∷ codes "}")
    ≡ some (codes "a\"b\\\n", codes "}")
read_label-escape_label_example = read_label-escape_label (codes "a\"b\\\n") (codes "}")
