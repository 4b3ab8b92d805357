-- ===== src/Daemon.antt =====
-- cmd/openconnectd/main.go: the daemon from its settings to the requests that it serves. The flags are
-- given, and the sockets are an order of events.
pub mod Managed
use openconnectd.Base.{ℕ, ◌≡◌, refl, Bool, true, List, [], ◌∷◌, Text, codes, is_nil, if◌then◌else◌}
use openconnectd.Errors.{Result, ok, err}
use openconnectd.Exec.{Exec, continue, ◌>>=◌, pure}
use openconnectd.Host.{Env, Host}
use openconnectd.FilePath.{join}
use openconnectd.Store.{Store, open_store}
use openconnectd.DaemonConfig
use openconnectd.DaemonConfig.{Yaml, load}
use openconnectd.Manager.{Setting, World}
use openconnectd.Manager.Instances.{reconcile}
use openconnectd.Manager.Reach.{booted, process_ended}
use openconnectd.HttpApi.{Request, Server}
use openconnectd.HttpApi.Serve.{serve}

-- The flags `-config` and `-listen`.
pub record Flags : Type 0 where
  pub config : Text
  pub listen : Text

abbrev pub overridden : Flags → DaemonConfig.Config → DaemonConfig.Config
overridden flags cfg = if is_nil flags.listen then cfg else record cfg { listen = flags.listen }

-- The server with the settings that were read.
abbrev pub with_config : Server → DaemonConfig.Config → Server
with_config s cfg = record s { setting = record s.setting { cfg = cfg } }

abbrev pub opened : DaemonConfig.Config → Store → Exec Host (DaemonConfig.Config × World)
opened cfg store h = (ok (cfg, booted store.path cfg.ocserv_bin h store.records), h)

-- A settings file or a state file that cannot be read ends the daemon.
unfoldable pub boot : Server → Yaml → Flags → Exec Host (DaemonConfig.Config × World)
boot s yaml flags = do
  cfg ← load s.setting.env yaml flags.config
  store ←
      open_store s.setting.env s.setting.codec
        (join (overridden flags cfg).state_dir (codes "state.json"))
  opened (overridden flags cfg) store

-- What happens to a daemon that runs, one after the other.
pub data Event : Type 0 where
  request : Request → Event
  process_ends : ℕ → Event

unfoldable pub step : Server → Event → World → World
step s (request req) w = (serve s req w).1
step s (process_ends pid) w = process_ended pid w

unfoldable pub run : Server → List Event → World → World
run s [] w = w
run s (e ∷ es) w = run s es (step s e w)

-- The instances are brought up before the first request.
unfoldable pub live : Server → List Event → World → World
live s es w = run s es (reconcile s.setting w).1
