-- ===== src/Manager/Live.antt =====
-- What internal/ocserv/manager.go reads from the running ocserv, and what it asks of it.
pub mod Report
pub mod Bans
pub mod Unban
pub mod Reads
use openconnectd.Base.{
  ℕ, zero, suc, Bool, true, false, ◌&&◌, not, List, [], ◌∷◌, ◌++◌, map, any, keep, length, Option,
  none, some, Text, same, is_nil, if◌then◌else◌, ◌==◌, ltb,
}
use openconnectd.Strings.{is_blank}
use openconnectd.Errors.{
  Error, Result, ok, err, instance_not_found, no_ban_list, not_banned, ip_required,
}
use openconnectd.Exec.{Exec, continue, ◌>>=◌, ◌>>◌, pure, refuse, attempt}
use openconnectd.Api.{Instance, Session, Ban}
use openconnectd.Store.{list_instances}
use openconnectd.Occtl
use openconnectd.Occtl.{Occtl, show_users, show_ip_bans, show_ip_ban_points, unban_ip}
use openconnectd.Manager.{Setting, World, on_host, guard, knows}
use openconnectd.Manager.Config.{occtl_socket}

abbrev pub instance_names : World → List Text
instance_names w = map (λ in'. in'.name) (list_instances w.store.records)

-- An instance that does not answer has no sessions.
unfoldable pub sessions_on : Text → Result (List Session) → List Session
sessions_on name (ok xs) = map {A = Session} (λ s. record s { instance_name = name }) xs
sessions_on name (err e) = []

unfoldable pub bans_on : Text → List Ban → List Ban
bans_on name bans = map {A = Ban} (λ b. record b { instance_name = name }) bans

-- `seen[b.IP]`
abbrev pub is_seen : List Ban → Ban → Bool
is_seen bans b = any (λ a. same a.ip b.ip) bans

-- The score of an address that is banned is left out, and so are all scores if the list is missing.
unfoldable pub merge : Text → List Ban → Result (List Ban) → List Ban
merge name bans (ok points) =
    bans_on name bans ++ bans_on name (keep (λ b. not (is_seen bans b)) points)
merge name bans (err e) = bans_on name bans

-- The bans, and the instances that did not answer.
abbrev pub Tally : Type 0
Tally = List Ban × List Text

unfoldable pub tally : Text → Result (List Ban) → Tally → Tally
tally name (ok bans) (out, failed) = (bans ++ out, failed)
tally name (err e) (out, failed) = (out, name ∷ failed)

unfoldable pub report : ℕ → Tally → Result (List Ban)
report asked (out, failed) =
    if ltb 0 (length failed) && (length failed == asked) then err (no_ban_list failed) else ok out

-- How many instances let the address go, and the last error.
abbrev pub Cleared : Type 0
Cleared = ℕ × Option Error

unfoldable pub count : Result (Unit {0}) → Cleared → Cleared
count (ok a) (n, last) = (suc n, last)
count (err e) (n, last) = (n, some e)

unfoldable pub verdict : Text → Cleared → Result (Unit {0})
verdict ip (suc n, last) = ok tt
verdict ip (zero, none) = err (not_banned ip)
verdict ip (zero, some e) = err e

module _ (m : Setting) where
  abbrev pub occtl : Occtl
  occtl = record { bin = m.cfg.occtl_bin }

  unfoldable pub gather_sessions : List Text → Exec World (List Session)
  gather_sessions [] = pure []
  gather_sessions (name ∷ names) = do
    found ← attempt (on_host (show_users m.env m.prints occtl m.reader (occtl_socket m.cfg name)))
    rest ← gather_sessions names
    pure (sessions_on name found ++ rest)

  unfoldable pub sessions : Text → Exec World (List Session)
  sessions instance' = if is_nil instance' then (λ w. gather_sessions (instance_names w) w) else (do
    guard (λ w. not (knows instance' w)) (instance_not_found instance')
    gather_sessions (instance' ∷ []))

  unfoldable pub with_points : Text → Result (List Ban) → Exec World (Result (List Ban))
  with_points name (err e) = pure (err e)
  with_points name (ok bans) = do
    points ←
        attempt
          (on_host (show_ip_ban_points m.env m.prints occtl m.reader (occtl_socket m.cfg name)))
    pure (ok (merge name bans points))

  unfoldable pub ask_bans : Text → Exec World (Result (List Ban))
  ask_bans name =
      attempt (on_host (show_ip_bans m.env m.prints occtl m.reader (occtl_socket m.cfg name)))
      >>= with_points name

  unfoldable pub gather_bans : List Text → Exec World Tally
  gather_bans [] = pure ([], [])
  gather_bans (name ∷ names) = do
    answer ← ask_bans name
    rest ← gather_bans names
    pure (tally name answer rest)

  unfoldable pub bans_of_names : List Text → Exec World (List Ban)
  bans_of_names names = gather_bans names >>= λ t w. (report (length names) t, w)

  unfoldable pub bans : Exec World (List Ban)
  bans w = bans_of_names (instance_names w) w

  unfoldable pub clear : Text → List Text → Cleared → Exec World Cleared
  clear ip [] c = pure c
  clear ip (name ∷ names) c = do
    answer ← attempt (on_host (unban_ip m.env m.prints occtl (occtl_socket m.cfg name) ip))
    clear ip names (count answer c)

  unfoldable pub clear_all : Text → List Text → Exec World (Unit {0})
  clear_all ip names = clear ip names (0, none) >>= λ c w. (verdict ip c, w)

  -- Every instance is asked, since each has its own list.
  unfoldable pub unban : Text → Exec World (Unit {0})
  unban ip = do refuse (is_blank ip) ip_required; λ w. clear_all ip (instance_names w) w

  unfoldable pub disconnect : Text → Text → Exec World (Unit {0})
  disconnect instance' cn = do
    guard (λ w. not (knows instance' w)) (instance_not_found instance')
    on_host (Occtl.disconnect m.env m.prints occtl (occtl_socket m.cfg instance') cn)
