-- ===== src/Manager/Files.antt =====
-- renderAndWrite and startInstance of internal/ocserv/manager.go.
use openconnectd.Base.{Text}
use openconnectd.Errors.{ok}
use openconnectd.Exec.{Exec, ◌>>=◌, ◌>>◌, lift}
use openconnectd.Host.{call, write_file}
use openconnectd.Api.{Instance}
use openconnectd.Store.{list_clients}
use openconnectd.Render.{render}
use openconnectd.PerUser.{sync_per_user_configs}
use openconnectd.Process.{start}
use openconnectd.Manager.{Setting, World, on_host, on_sup}
use openconnectd.Manager.Config.{instance_config, config_path}

module _ (m : Setting) where
  -- The pins are made anew from the client store.
  unfoldable pub sync : Text → Exec World (Unit {0})
  sync name w =
      on_host
        (λ h. (ok tt, sync_per_user_configs m.env m.cfg name (list_clients w.store.records name) h))
        w

  unfoldable pub write_config : Text → Text → Exec World (Unit {0})
  write_config name rendered = on_host (write_file m.env (config_path m.cfg name) rendered)

  -- The two directories, the pins, and the file. Nothing is touched if the config is refused.
  unfoldable pub render_and_write : Instance → Exec World (Unit {0})
  render_and_write in' = do
    rendered ← lift (render m.quote (instance_config m.cfg in'))
    on_host (call m.env)
    on_host (call m.env)
    sync in'.name
    write_config in'.name rendered

  unfoldable pub start_instance : Instance → Exec World (Unit {0})
  start_instance in' = do
    render_and_write in'
    on_sup (start m.env in'.name (config_path m.cfg in'.name))
