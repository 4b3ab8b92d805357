-- ===== src/Host.antt =====
-- The operating system as the daemon meets it: files, and calls that may fail. The outcome of the
-- n-th call is the environment's choice, so a theorem about every `Env` covers every failure.
-- Directories and modes are not modelled: a directory that is missing is a call that fails.
pub mod Laws
pub mod Frame
use openconnectd.Base.{ℕ, suc, ◌++◌, Option, none, some, Text, codes, take}
use openconnectd.Base.Dict.{Dict, lookup, insert, erase}
use openconnectd.Errors.{Error, not_exist, system, Result, ok, err}
use openconnectd.Exec.{Exec}

-- `torn` is a write that fails behind its first bytes; for any other call it is a failure.
pub data Outcome : Type 0 where
  done : Outcome
  failed : Text → Outcome
  torn : Text → ℕ → Outcome

-- What the n-th call to the system does, what a tool prints then, and the seconds since 1970 that the
-- clock shows before it.
pub record Env : Type 0 where
  pub outcome : ℕ → Outcome
  pub output : ℕ → Text
  pub clock : ℕ → ℕ

pub record Host : Type 0 where
  pub files : Dict Text
  pub calls : ℕ

abbrev tick : Host → Host
tick h = record h { calls = suc h.calls }

abbrev write_as : Outcome → Text → Text → Host → Result (Unit {0}) × Host
write_as done path content h = (ok tt, record h { files = insert path content h.files })
write_as (failed e) path content h = (err (system e), h)
write_as (torn e n) path content h =
    (err (system e), record h { files = insert path (take n content) h.files })

abbrev effect : Outcome → Result (Unit {0})
effect done = ok tt
effect (failed e) = err (system e)
effect (torn e n) = err (system e)

abbrev found : Text → Text → Option Text → Result Text
found op path none = err (not_exist op path)
found op path (some content) = ok content

abbrev read_as : Outcome → Text → Host → Result Text × Host
read_as done path h = (found (codes "open") path (lookup path h.files), h)
read_as (failed e) path h = (err (system e), h)
read_as (torn e n) path h = (err (system e), h)

abbrev remove_found : Option Text → Text → Host → Result (Unit {0}) × Host
remove_found none path h = (err (not_exist (codes "remove") path), h)
remove_found (some content) path h = (ok tt, record h { files = erase path h.files })

abbrev remove_as : Outcome → Text → Host → Result (Unit {0}) × Host
remove_as done path h = remove_found (lookup path h.files) path h
remove_as (failed e) path h = (err (system e), h)
remove_as (torn e n) path h = (err (system e), h)

abbrev rename_found : Option Text → Text → Text → Host → Result (Unit {0}) × Host
rename_found none old new h = (err (not_exist (codes "rename") old), h)
rename_found (some content) old new h =
    (ok tt, record h { files = insert new content (erase old h.files) })

abbrev rename_as : Outcome → Text → Text → Host → Result (Unit {0}) × Host
rename_as done old new h = rename_found (lookup old h.files) old new h
rename_as (failed e) old new h = (err (system e), h)
rename_as (torn e n) old new h = (err (system e), h)

module _ (env : Env) where
  -- A call that changes no file: os.MkdirAll, exec.LookPath, the start of a process, a signal.
  unfoldable pub call : Exec Host (Unit {0})
  call h = (effect (env.outcome h.calls), tick h)

  -- os.WriteFile
  unfoldable pub write_file : Text → Text → Exec Host (Unit {0})
  write_file path content h = write_as (env.outcome h.calls) path content (tick h)

  -- os.ReadFile
  unfoldable pub read_file : Text → Exec Host Text
  read_file path h = read_as (env.outcome h.calls) path (tick h)

  -- os.Remove
  unfoldable pub remove : Text → Exec Host (Unit {0})
  remove path h = remove_as (env.outcome h.calls) path (tick h)

  -- os.Rename, of two different paths
  unfoldable pub rename : Text → Text → Exec Host (Unit {0})
  rename old new h = rename_as (env.outcome h.calls) old new (tick h)
