-- ===== src/Tui.antt =====
-- internal/tui/tui.go: the dashboard as a step on its state, with what it asks of the daemon as
-- commands. The screen library is left out: it passes the messages and runs the commands.
pub mod Bytes
pub mod View
pub mod Laws
use openconnectd.Base.{
  ℕ, zero, suc, ◌-◌, Bool, true, false, ◌||◌, not, List, [], ◌∷◌, ◌++◌, Option, none, some, Text,
  codes, same, length, ltb, leb, if◌then◌else◌,
}
use openconnectd.Errors.{Error, Result, ok, err}
use openconnectd.Errors.Message.{message}
use openconnectd.Exec.{Exec, continue, ◌>>=◌, pure}
use openconnectd.Api.{Instance, Session}
use openconnectd.Params.Json.{Fields, field, end, bool}
use openconnectd.Render.Routes.{text_le}
use openconnectd.Metrics.{sort_slice, name_le}
use openconnectd.ApiClient.{Client, Transport, Wire}
use openconnectd.ApiClient.Calls

pub data Pane : Type 0 where
  pane_instances : Pane
  pane_sessions : Pane

-- The client is a parameter of the commands. An `int` that is never negative is an ℕ.
pub record Model : Type 0 where
  pub base : Text
  pub instances : List Instance
  pub sessions : List Session
  pub focus : Pane
  pub cursor : ℕ
  pub status : Text
  pub error : Option Error
  pub width : ℕ
  pub height : ℕ

-- What Run starts with.
unfoldable pub initial : Text → Model
initial base = record {
  base = base;
  instances = [];
  sessions = [];
  focus = pane_instances;
  cursor = 0;
  status = [];
  error = none;
  width = 0;
  height = 0;
}

pub data Message : Type 0 where
  window_size : ℕ → ℕ → Message
  tick : Message
  data_read : List Instance → List Session → Message
  data_failed : Error → Message
  action : Text → Message
  key : Text → Message

-- What Update asks for; `fetch_and_tick` is a batch, and a tick is sent later.
pub data Command : Type 0 where
  nothing : Command
  quit : Command
  fetch : Command
  fetch_and_tick : Command
  kick : Session → Command
  toggle : Instance → Command

abbrev rows_of : Pane → List Instance → List Session → ℕ
rows_of pane_instances ins ses = length ins
rows_of pane_sessions ins ses = length ses

abbrev pub rows : Model → ℕ
rows m = rows_of m.focus m.instances m.sessions

-- The last row, or the first place if there is none: -1 becomes 0.
unfoldable pub clamp_cursor : Model → Model
clamp_cursor m = if leb (rows m) m.cursor then record m { cursor = rows m - 1 } else m

-- `xs[i]`, if there is one
abbrev pub nth {ℓ} : {A : Type ℓ} → List A → ℕ → Option A
nth [] i = none
nth (x ∷ xs) zero = some x
nth (x ∷ xs) (suc i) = nth xs i

abbrev kick_of : Option Session → Command
kick_of none = nothing
kick_of (some s) = kick s

abbrev toggle_of : Option Instance → Command
toggle_of none = nothing
toggle_of (some in') = toggle in'

abbrev kick_in : Pane → Model → Command
kick_in pane_instances m = nothing
kick_in pane_sessions m = kick_of (nth m.sessions m.cursor)

abbrev toggle_in : Pane → Model → Command
toggle_in pane_instances m = toggle_of (nth m.instances m.cursor)
toggle_in pane_sessions m = nothing

abbrev other : Pane → Pane
other pane_instances = pane_sessions
other pane_sessions = pane_instances

abbrev is_key : Text → Text → Text → Bool
is_key k a b = same k a || same k b

-- The keys of onKey, one after the other; none of them is two.
unfoldable pub on_key : Text → Model → Model × Command
on_key k m =
    if is_key k (codes "q") (codes "ctrl+c")
    then (m, quit)
    else if same k (codes "tab")
    then (record m { focus = other m.focus; cursor = 0 }, nothing)
    else if is_key k (codes "up") (codes "k")
    then (record m { cursor = m.cursor - 1 }, nothing)
    else if is_key k (codes "down") (codes "j")
    then ((if ltb (suc m.cursor) (rows m) then record m { cursor = suc m.cursor } else m), nothing)
    else if same k (codes "r")
    then (m, fetch)
    else if same k (codes "x")
    then (m, kick_in m.focus m)
    else if same k (codes "e")
    then (m, toggle_in m.focus m)
    else (m, nothing)

-- Update
unfoldable pub update : Message → Model → Model × Command
update (window_size w h) m = (record m { width = w; height = h }, nothing)
update tick m = (m, fetch_and_tick)
update (data_failed e) m = (record m { error = some e }, nothing)
update (data_read ins ses) m =
    (clamp_cursor (record m { error = none; instances = ins; sessions = ses }), nothing)
update (action s) m = (record m { status = s }, fetch)
update (key k) m = on_key k m

abbrev or_empty {ℓ} : {A : Type ℓ} → Option (List A) → List A
or_empty none = []
or_empty (some xs) = xs

abbrev user_le : Session → Session → Bool
user_le a b = text_le a.common_name b.common_name

abbrev read_message : Result (List Instance × List Session) → Message
read_message (ok (ins, ses)) = data_read ins ses
read_message (err e) = data_failed e

module _ (wire : Wire) {S : Type 0} (transport : Transport S) (c : Client)
    (quote : Text → Text) where
  both_lists : Exec S (List Instance × List Session)
  unfolding sort_slice
  both_lists = do
    ins ← Calls.list_instances wire transport c
    ses ← Calls.sessions wire transport c []
    pure (sort_slice name_le (or_empty ins), sort_slice user_le (or_empty ses))

  unfoldable pub fetched : S → Message × S
  unfolding both_lists
  fetched s = let (r, s') = both_lists s in (read_message r, s')

  abbrev kicked : Session → Result (Unit {0}) → Text
  kicked s (ok u) = codes "disconnected " ++ s.common_name ++ codes "@" ++ s.instance_name
  kicked s (err e) = codes "kick failed: " ++ message quote e

  unfoldable pub kick_message : Session → S → Message × S
  kick_message s st =
      let (r, st') = Calls.disconnect wire transport c s.instance_name s.common_name st in
      (action (kicked s r), st')

  abbrev toggled : Instance → Result (Option Instance) → Text
  toggled in' (ok u) =
      (if not in'.enabled then codes "enabled" else codes "disabled") ++ codes " " ++ in'.name
  toggled in' (err e) = codes "toggle failed: " ++ message quote e

  unfoldable pub toggle_message : Instance → S → Message × S
  toggle_message in' st =
      let (r, st') =
        Calls.patch_instance wire transport c in'.name
          (field (codes "enabled") (bool (not in'.enabled)) end) st in
      (action (toggled in' r), st')
