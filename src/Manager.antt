-- ===== src/Manager.antt =====
-- internal/ocserv/manager.go: the manager, over the store, the supervisor and the PKI. The parts share
-- one host, and each call of the manager is one step: the handlers' interleaving is not modelled.
pub mod Config
pub mod Files
pub mod Instances
pub mod Clients
pub mod Live
pub mod Keeps
pub mod Makes
pub mod Invariant
pub mod Reach
pub mod Results
use openconnectd.Base.{Bool, true, false, Text, if◌then◌else◌, is_some, ◌++◌, codes}
use openconnectd.Errors.{Error, Result, ok, err}
use openconnectd.Exec.{Exec}
use openconnectd.Host.{Env, Host}
use openconnectd.Store.{Codec, Store, get_instance, get_client, count_clients}
use openconnectd.Process.{Supervisor, running}
use openconnectd.Pki.{Crypto}
use openconnectd.Ocpasswd.{Tool}
use openconnectd.Occtl
use openconnectd.Occtl.{Reader}
use openconnectd.DaemonConfig
use openconnectd.Api.{Instance}
use openconnectd.Base.Int.{pos}

-- What surrounds the program: the system, the JSON and crypto packages, `%q`, the tools of ocserv and
-- the reader of what occtl prints, and the daemon's settings.
pub record Setting : Type 0 where
  pub env : Env
  pub codec : Codec
  pub crypto : Crypto
  pub quote : Text → Text
  pub tool : Tool
  pub prints : Occtl.Tool
  pub reader : Reader
  pub cfg : DaemonConfig.Config

-- The `host` fields of the two parts are overwritten by this one whenever they act.
pub record World : Type 0 where
  pub store : Store
  pub sup : Supervisor
  pub host : Host

module _ {ℓ} {A : Type ℓ} where
  unfoldable pub on_host : Exec Host A → Exec World A
  on_host m w = let (r, h) = m w.host in (r, record w { host = h })

  unfoldable pub on_store : Exec Store A → Exec World A
  on_store m w =
      let (r, s) = m (record w.store { host = w.host }) in
      (r, record w { store = s; host = s.host })

  unfoldable pub on_sup : Exec Supervisor A → Exec World A
  on_sup m w =
      let (r, s) = m (record w.sup { host = w.host }) in (r, record w { sup = s; host = s.host })

-- `if condition { return err }` on the state
unfoldable pub guard : (World → Bool) → Error → Exec World (Unit {0})
guard p e w = if p w then (err e, w) else (ok tt, w)

abbrev pub knows : Text → World → Bool
knows name w = is_some (get_instance w.store.records name)

unfoldable pub decorate : Instance → World → Instance
decorate in' w = record in' {
  up = running w.sup in'.name;
  client_count = pos (count_clients w.store.records in'.name);
}
