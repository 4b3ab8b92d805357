-- ===== src/Examples/Processes.antt =====
-- The supervisor of internal/ocserv/process.go with one process that runs.
use openconnectd.Base.{
  not, ◌&&◌, ℕ, ◌≡◌, ◌≢◌, refl, true, false, [], ◌∷◌, some, Text, codes, arith, same, same_iff, sym,
  ◌∙◌,
}
use openconnectd.Base.Dict.{lookup}
use openconnectd.Errors.{ok}
use openconnectd.Process.{Supervisor, term, alive, running, start, stop}
use openconnectd.Process.Laws.{IsSound}
use openconnectd.Process.Running.{Sends, start_lem, stop_lem}
use openconnectd.Process.Reach.{empty}
use openconnectd.Manager.Config.{config_path}
use openconnectd.Examples.{fine, no_files, cfg}

abbrev one : Supervisor
one = record {
  bin = codes "/usr/sbin/ocserv";
  procs = (codes "vpn", 1) ∷ [];
  running = record { pid = 1; config = codes "/etc/oc/vpn.conf" } ∷ [];
  next_pid = 2;
  signals = [];
  host = no_files;
}

started_only : (i : Text) (pid : ℕ) → lookup i one.procs ≡ some pid → (codes "vpn" ≡ i) × (pid ≡ 1)
unfolding lookup
started_only i pid e = ground (arith, same_iff (codes "vpn") i)

one-IsSound : IsSound one
one-IsSound = record {
  started = λ i pid e. ground (arith, started_only i pid e);
  known = refl;
  apart = λ i j pid e e'. (sym (started_only i pid e).0) ∙ (started_only j pid e').0;
}

start_lem_example :
    (running one (codes "lab") ≡ true
      → start fine (codes "lab") (codes "/etc/oc/lab.conf") one ≡ (ok tt, one))
    × ((start fine (codes "lab") (codes "/etc/oc/lab.conf") one).0 ≡ ok tt
        → running (start fine (codes "lab") (codes "/etc/oc/lab.conf") one).1 (codes "lab") ≡ true)
    × ((j : Text)
        → codes "lab" ≢ j
        → running (start fine (codes "lab") (codes "/etc/oc/lab.conf") one).1 j ≡ running one j)
start_lem_example = start_lem fine (codes "lab") (codes "/etc/oc/lab.conf") one one-IsSound

stop_lem_example :
    ((j : Text)
      → running (stop fine (codes "vpn") one).1 j ≡ (not (same (codes "vpn") j) && running one j))
    × ((pid : ℕ)
        → lookup (codes "vpn") one.procs ≡ some pid
        → alive one pid ≡ true
        → Sends fine pid term one (stop fine (codes "vpn") one))
    × (running one (codes "vpn") ≡ false
        → ((stop fine (codes "vpn") one).0 ≡ ok tt)
          × ((stop fine (codes "vpn") one).1.signals ≡ []))
stop_lem_example = stop_lem fine (codes "vpn") one

-- The instance is started, stopped and started again, and its first process ends late.
abbrev first : Supervisor
first = (start fine (codes "vpn") (config_path cfg (codes "vpn")) (empty [] no_files)).1

abbrev second : Supervisor
second =
    (start fine (codes "vpn") (config_path cfg (codes "vpn")) (stop fine (codes "vpn") first).1).1
