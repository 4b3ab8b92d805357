-- ===== src/Tui/Laws.antt =====
-- Where the cursor of internal/tui/tui.go can be, and what the keys act on.
use mathlib.Core.Option
use openconnectd.Base.{
  ℕ, zero, suc, ◌<◌, ◌≡◌, ◌⊎◌, inl, refl, true, List, [], ◌∷◌, Text, codes, same, length, is_some,
  some, arith,
}
use openconnectd.Tui.{
  pane_instances, pane_sessions, Model, Message, window_size, tick, data_read, data_failed, action,
  key, kick, toggle, rows, nth, clamp_cursor, on_key, update, initial,
}

-- The cursor is on a row, or at the top.
abbrev pub IsPlaced : Model → Type 0
IsPlaced m = (m.cursor ≡ 0) ⊎ (m.cursor < rows m)

-- A run of the dashboard: messages, one after the other.
unfoldable pub run : List Message → Model → Model
run [] m = m
run (a ∷ msgs) m = run msgs (update a m).0

on_key-IsPlaced : (k : Text) (m : Model) → IsPlaced m → IsPlaced (on_key k m).0
unfolding on_key
on_key-IsPlaced k m h = ground arith

clamp_cursor-IsPlaced : (m : Model) → IsPlaced (clamp_cursor m)
unfolding clamp_cursor
clamp_cursor-IsPlaced m = ground arith

update-IsPlaced : (a : Message) (m : Model) → IsPlaced m → IsPlaced (update a m).0
unfolding update
update-IsPlaced (window_size w h) m p = p
update-IsPlaced tick m p = p
update-IsPlaced (data_failed e) m p = p
update-IsPlaced (data_read ins ses) m p = clamp_cursor-IsPlaced _
update-IsPlaced (action s) m p = p
update-IsPlaced (key k) m p = on_key-IsPlaced k m p

run_from-IsPlaced : (msgs : List Message) (m : Model) → IsPlaced m → IsPlaced (run msgs m)
unfolding run
run_from-IsPlaced [] m p = p
run_from-IsPlaced (a ∷ msgs) m p = run_from-IsPlaced msgs (update a m).0 (update-IsPlaced a m p)

nth-length {ℓ} : {A : Type ℓ} (xs : List A) (i : ℕ) → i < length xs → is_some (nth xs i) ≡ true
nth-length [] i h = ground arith
nth-length (x ∷ xs) zero h = refl
nth-length (x ∷ xs) (suc i) h = nth-length xs i (omega arith)

keys_act :
    (m : Model)
    → IsPlaced m
    → ((m.focus ≡ pane_sessions)
        → 0 < length m.sessions
        → Option.map kick (nth m.sessions m.cursor) ≡ some (on_key (codes "x") m).1)
      × ((m.focus ≡ pane_instances)
          → 0 < length m.instances
          → Option.map toggle (nth m.instances m.cursor) ≡ some (on_key (codes "e") m).1)
unfolding on_key same
keys_act m p = (
  λ f n. rw f (ground (arith, nth-length m.sessions m.cursor)),
  λ f n. rw f (ground (arith, nth-length m.instances m.cursor)),
)

-- In every run of the dashboard the cursor is on a row of the pane that has the focus, or at the top.
-- So if there is a session in the pane of sessions, the key "x" kicks the one under the cursor, and if
-- there is an instance in the pane of instances, the key "e" toggles the one under the cursor.
pub run-IsPlaced :
    (base : Text) (msgs : List Message)
    → let m = run msgs (initial base) in
      IsPlaced m
      × ((m.focus ≡ pane_sessions)
          → 0 < length m.sessions
          → Option.map kick (nth m.sessions m.cursor) ≡ some (on_key (codes "x") m).1)
      × ((m.focus ≡ pane_instances)
          → 0 < length m.instances
          → Option.map toggle (nth m.instances m.cursor) ≡ some (on_key (codes "e") m).1)
unfolding initial
run-IsPlaced base msgs =
    let placed = run_from-IsPlaced msgs (initial base) (inl refl) in
    let (kicks, toggles) = keys_act (run msgs (initial base)) placed in (placed, kicks, toggles)
