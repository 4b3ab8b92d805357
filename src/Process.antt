-- ===== src/Process.antt =====
-- internal/ocserv/process.go: one ocserv process for each instance. `procs` is the supervisor's map,
-- the rest is the operating system's: which processes run, what each was started with, the signals
-- sent so far. A process ends when the environment says so (`Ends` of Process/Reach), not by a call.
pub mod Laws
pub mod Running
pub mod Reach
use openconnectd.Base.{
  ℕ, suc, ◌≡◌, refl, Bool, true, false, ◌&&◌, List, [], ◌∷◌, ◌++◌, Option, none, some, Text, is_nil,
  any, ◌==◌, if◌then◌else◌,
}
use openconnectd.Base.Dict.{Dict, lookup, insert, erase}
use openconnectd.Errors.{Error, Result, ok, err, wrap, ocserv_missing, start_failed, not_running}
use openconnectd.Exec.{Exec, continue}
use openconnectd.Host.{Env, Host, call}

pub data Signal : Type 0 where
  hup term : Signal

-- A process that runs: its id, and the config file that it was started with.
pub record Proc : Type 0 where
  pub pid : ℕ
  pub config : Text

pub record Supervisor : Type 0 where
  pub bin : Text
  pub procs : Dict ℕ
  pub running : List Proc
  pub next_pid : ℕ
  pub signals : List (ℕ × Signal)
  pub host : Host

-- alive: the process exists. One that was started and has ended does not.
unfoldable pub alive : Supervisor → ℕ → Bool
alive s pid = any (λ p. p.pid == pid) s.running

abbrev alive_found : Supervisor → Option ℕ → Bool
alive_found s none = false
alive_found s (some pid) = alive s pid

-- Running
unfoldable pub running : Supervisor → Text → Bool
running s instance' = alive_found s (lookup instance' s.procs)

on_host {ℓ} : {A : Type ℓ} → Exec Host A → Exec Supervisor A
on_host m s = let (r, h) = m s.host in (r, record s { host = h })

module _ (env : Env) where
  -- exec.LookPath, if no binary is configured
  look_path : Exec Supervisor (Unit {0})
  unfolding on_host
  look_path s =
      if is_nil s.bin
      then (let (r, s') = on_host (call env) s in (wrap ocserv_missing r, s'))
      else (ok tt, s)

  -- cmd.Start, and the new process in the map
  launch : Text → Text → Unit {0} → Exec Supervisor (Unit {0})
  unfolding on_host
  launch instance' config _ s =
      let (r, s') = on_host (call env) s in
      continue (wrap (start_failed instance') r)
        (λ _ s''. (
          ok tt,
          record s'' {
            procs = insert instance' s''.next_pid s''.procs;
            running = record { pid = s''.next_pid; config = config } ∷ s''.running;
            next_pid = suc s''.next_pid;
          },
        ))
        s'

  unfoldable pub start : Text → Text → Exec Supervisor (Unit {0})
  unfolding look_path launch
  start instance' config s =
      if running s instance'
      then (ok tt, s)
      else (let (r, s') = look_path s in continue r (launch instance' config) s')

  -- Process.Signal; it is on the log if it was delivered
  pub signal : ℕ → Signal → Exec Supervisor (Unit {0})
  unfolding on_host
  signal pid sig s =
      let (r, s') = on_host (call env) s in
      continue r (λ _ s''. (ok tt, record s'' { signals = s''.signals ++ (pid, sig) ∷ [] })) s'

  reload_found : Text → Option ℕ → Exec Supervisor (Unit {0})
  unfolding signal
  reload_found instance' none s = (err (not_running instance'), s)
  reload_found instance' (some pid) s =
      if alive s pid then signal pid hup s else (err (not_running instance'), s)

  unfoldable pub reload : Text → Exec Supervisor (Unit {0})
  unfolding reload_found
  reload instance' s = reload_found instance' (lookup instance' s.procs) s

  stop_found : Text → Option ℕ → Exec Supervisor (Unit {0})
  unfolding signal
  stop_found instance' none s = (ok tt, s)
  stop_found instance' (some pid) s =
      let s' = record s { procs = erase instance' s.procs } in
      if alive s' pid then signal pid term s' else (ok tt, s')

  unfoldable pub stop : Text → Exec Supervisor (Unit {0})
  unfolding stop_found
  stop instance' s = stop_found instance' (lookup instance' s.procs) s
