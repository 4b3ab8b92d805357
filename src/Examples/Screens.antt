-- ===== src/Examples/Screens.antt =====
-- The dashboard of internal/tui/tui.go and the command line client of cmd/openconnectctl/main.go, at
-- concrete messages and flags.
use mathlib.Core.Option
use openconnectd.Base.{
  ◌≡◌, ◌<◌, ◌≤◌, ◌*◌, ◌^◌, suc, some, true, false, List, [], ◌∷◌, Text, codes, is_nil, length,
  arith,
}
use openconnectd.Errors.{ok}
use openconnectd.DaemonConfig.{default_config}
use openconnectd.Tui.{
  Message, data_read, key, pane_instances, pane_sessions, initial, on_key, kick, toggle, nth,
}
use openconnectd.Tui.Bytes.{scale_of, scale_of_lem}
use openconnectd.Tui.Laws.{IsPlaced, run, run-IsPlaced}
use openconnectd.Ctl.Settings.{Flags, resolve}
use openconnectd.Ctl.Laws.{resolve_lem}
use openconnectd.Examples.{fine, no_files, vpn}

-- Two instances, the second of which goes while the cursor is on it.
abbrev messages : List Message
messages =
    data_read (vpn ∷ record vpn { name = codes "lab" } ∷ []) []
    ∷ key (codes "down")
    ∷ data_read (vpn ∷ []) []
    ∷ []

run-IsPlaced_example :
    let m = run messages (initial (codes "http://127.0.0.1:51990")) in
    IsPlaced m
    × ((m.focus ≡ pane_sessions)
        → 0 < length m.sessions
        → Option.map kick (nth m.sessions m.cursor) ≡ some (on_key (codes "x") m).1)
    × ((m.focus ≡ pane_instances)
        → 0 < length m.instances
        → Option.map toggle (nth m.instances m.cursor) ≡ some (on_key (codes "e") m).1)
run-IsPlaced_example = run-IsPlaced (codes "http://127.0.0.1:51990") messages

-- The greatest uint64.
scale_of_lem_example :
    let (div, exp) = scale_of 18446744073709551615 in
    (exp < 6)
    × (div ≡ 1024 ^ suc exp)
    × (div ≤ 18446744073709551615)
    × (18446744073709551615 < 1024 * div)
scale_of_lem_example = scale_of_lem 18446744073709551615 (ground arith) (ground arith)

abbrev flags : Flags
flags = record { config = codes "/etc/oc.yaml"; url = []; token = codes "t" }

abbrev variables : Text → Text
variables name = codes "http://10.0.0.1"

resolve_lem_example :
    let (base, token) = (resolve fine (λ t c. ok default_config) variables flags no_files).0 in
    (is_nil base ≡ false)
    × (is_nil flags.url ≡ false → base ≡ flags.url)
    × (is_nil flags.token ≡ false → token ≡ flags.token)
    × (is_nil flags.url ≡ true
        → is_nil (variables (codes "OPENCONNECTD_URL")) ≡ false
        → base ≡ variables (codes "OPENCONNECTD_URL"))
    × (is_nil flags.token ≡ true
        → is_nil (variables (codes "OPENCONNECTD_TOKEN")) ≡ false
        → token ≡ variables (codes "OPENCONNECTD_TOKEN"))
resolve_lem_example = resolve_lem fine (λ t c. ok default_config) variables flags no_files
