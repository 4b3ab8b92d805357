-- ===== src/Tui/View.antt =====
-- View of internal/tui/tui.go: the screen as text. The styles, the count of a text's characters, `%.1f`
-- and Duration.String are parameters, and the clock is rounded to a second.
use openconnectd.Base.{
  ℕ, zero, suc, ◌+◌, ◌-◌, Bool, true, false, List, [], ◌∷◌, ◌++◌, Option, none, some, Text, codes,
  is_nil, length, leb, take, ◌==◌, if◌then◌else◌,
}
use openconnectd.Base.Int.{ℤ, pos, negsuc}
use openconnectd.Strings.{format_nat, format_int}
use openconnectd.Errors.{Error}
use openconnectd.Errors.Message.{message}
use openconnectd.Api.{Instance, Session}
use openconnectd.Tui.{Pane, pane_instances, pane_sessions, Model}
use openconnectd.Tui.Bytes.{bytes_short}

pub record Style : Type 0 where
  pub title : Text → Text
  pub head : Text → Text
  pub selected : Text → Text
  pub dim : Text → Text
  pub failed : Text → Text
  pub active_tab : Text → Text
  pub inactive_tab : Text → Text

pub record Screen : Type 0 where
  pub style : Style
  pub quote : Text → Text
  pub rune_count : Text → ℕ
  pub format_1f : ℕ → ℕ → Text
  pub format_seconds : ℕ → Text
  pub now : ℕ

unfoldable pub yesno : Bool → Text
yesno true = codes "yes"
yesno false = codes "no"

-- Bytes are counted, and the three of the ellipsis come on top.
unfoldable pub trunc : Text → ℕ → Text
trunc s n =
    if leb (length s) n
    then s
    else if leb n 1
    then take n s
    else take (n - 1) s ++ 0xE2 ∷ 0x80 ∷ 0xA6 ∷ []

spaces : ℕ → Text
spaces zero = []
spaces (suc n) = 32 ∷ spaces n

-- The seconds since the time, or none if it is ahead.
abbrev seconds_since : ℕ → ℤ → ℕ
seconds_since now (pos t) = now - t
seconds_since now (negsuc t) = now + suc t

module _ (x : Screen) where
  -- `%-ns `
  unfoldable column : ℕ → Text → Text
  unfolding spaces
  column n s = s ++ spaces (n - x.rune_count s) ++ codes " "

  unfoldable pub uptime : Option ℤ → Text
  uptime none = codes "-"
  uptime (some t) = x.format_seconds (seconds_since x.now t)

  -- A row, that under the cursor highlighted.
  unfoldable pub line : ℕ → ℕ → Text → Text
  line cursor i row = (if i == cursor then x.style.selected row else row) ++ codes "\n"

  unfoldable pub instance_row : Instance → Text
  unfolding column
  instance_row in' =
      column 16 (trunc in'.name 16)
      ++ column 6 (yesno in'.up)
      ++ column 8 (yesno in'.camouflage.enabled)
      ++ column 22 (trunc in'.public_endpoint 22)
      ++ column 8 (format_int in'.client_count)
      ++ in'.auth_mode

  instance_rows : ℕ → ℕ → List Instance → Text
  instance_rows cursor i [] = []
  instance_rows cursor i (in' ∷ rest) =
      line cursor i (instance_row in') ++ instance_rows cursor (suc i) rest

  unfoldable pub instance_table : Model → Text
  unfolding column instance_rows
  instance_table m =
      x.style.head (
        column 16 (codes "NAME")
        ++ column 6 (codes "UP")
        ++ column 8 (codes "CAMOUFL")
        ++ column 22 (codes "ENDPOINT")
        ++ column 8 (codes "CLIENTS")
        ++ codes "AUTH")
      ++ codes "\n"
      ++ (if is_nil m.instances then x.style.dim (codes "  no instances") ++ codes "\n" else [])
      ++ instance_rows m.cursor 0 m.instances

  unfoldable pub session_row : Session → Text
  unfolding column
  session_row s =
      column 16 (trunc s.common_name 16)
      ++ column 14 (trunc s.instance_name 14)
      ++ column 16 s.vpn_address
      ++ column 16 s.remote_ip
      ++ column 10
          (bytes_short x.format_1f s.rx_bytes ++ codes "/" ++ bytes_short x.format_1f s.tx_bytes)
      ++ column 6 (yesno s.dtls)
      ++ uptime s.connected_at

  session_rows : ℕ → ℕ → List Session → Text
  session_rows cursor i [] = []
  session_rows cursor i (s ∷ rest) =
      line cursor i (session_row s) ++ session_rows cursor (suc i) rest

  unfoldable pub session_table : Model → Text
  unfolding column session_rows
  session_table m =
      x.style.head (
        column 16 (codes "USER")
        ++ column 14 (codes "INSTANCE")
        ++ column 16 (codes "VPN IP")
        ++ column 16 (codes "REMOTE IP")
        ++ column 10 (codes "RX/TX")
        ++ column 6 (codes "DTLS")
        ++ codes "UPTIME")
      ++ codes "\n"
      ++ (if is_nil m.sessions then x.style.dim (codes "  no live sessions") ++ codes "\n" else [])
      ++ session_rows m.cursor 0 m.sessions

  abbrev tabs_at : Pane → Text → Text → Text
  tabs_at pane_instances ins ses = x.style.active_tab ins ++ codes "   " ++ x.style.inactive_tab ses
  tabs_at pane_sessions ins ses = x.style.inactive_tab ins ++ codes "   " ++ x.style.active_tab ses

  unfoldable pub tabs : Model → Text
  tabs m =
      tabs_at m.focus (codes "Instances (" ++ format_nat (length m.instances) ++ codes ")")
        (codes "Sessions (" ++ format_nat (length m.sessions) ++ codes ")")

  abbrev table_at : Pane → Model → Text
  table_at pane_instances m = instance_table m
  table_at pane_sessions m = session_table m

  -- An error hides the status.
  abbrev notice : Option Error → Text → Text
  notice (some e) status = x.style.failed (codes "error: " ++ message x.quote e) ++ codes "\n"
  notice none status = if is_nil status then [] else x.style.dim status ++ codes "\n"

  -- The middle dot, and the two arrows.
  abbrev keys : Text
  keys =
      let dot = codes " " ++ 0xC2 ∷ 0xB7 ∷ codes " " in
      codes "tab switch"
      ++ dot
      ++ 0xE2 ∷ 0x86 ∷ 0x91 ∷ 0xE2 ∷ 0x86 ∷ 0x93 ∷ codes " move"
      ++ dot
      ++ codes "e toggle instance"
      ++ dot
      ++ codes "x kick session"
      ++ dot
      ++ codes "r refresh"
      ++ dot
      ++ codes "q quit"

  unfoldable pub view : Model → Text
  view m =
      x.style.title (codes "openconnectd")
      ++ x.style.dim (codes "  " ++ m.base)
      ++ codes "\n"
      ++ tabs m
      ++ codes "\n\n"
      ++ table_at m.focus m
      ++ codes "\n"
      ++ notice m.error m.status
      ++ x.style.dim keys
      ++ codes "\n"
