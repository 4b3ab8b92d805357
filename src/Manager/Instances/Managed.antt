-- ===== src/Manager/Instances/Managed.antt =====
-- The operations on instances of internal/ocserv/manager.go keep the records and the processes in step.
use openconnectd.Manager.Keeps.{moves_rules}
use openconnectd.Base.{Bool, true, false, Option, none, some, Text}
use openconnectd.Api.{Instance, InstanceCreateRequest}
use openconnectd.Host.{call, remove}
use openconnectd.Process.{stop, reload, start}
use openconnectd.Params.Json.{Fields}
use openconnectd.Manager.{Setting, on_host, on_store, on_sup}
use openconnectd.Manager.Files.{sync, write_config, render_and_write, start_instance}
use openconnectd.Manager.Keeps.{
  Cond, Implies, Moves, Moves-forget, Moves-on_store, Moves-on_sup, Moves-gets, Moves-raise,
  Moves-on_host, Moves-lift, Moves-skip, Moves-refuse, Moves-guard, Moves-when, Moves-then,
  Moves-bind,
}
use openconnectd.Manager.Invariant.{
  IsManaged, IsKnown, IsStopped, start-IsKnown, stop-IsStopped, reload-IsManaged,
  put_instance-IsKnown, delete_instance-IsManaged, IsManaged-host, IsKnown-host,
}
use openconnectd.Manager.Config.{config_path}
use openconnectd.Manager.Instances.{
  requested, make_ca, ensure_pki, create, create_instance, delete, reload_if, start_and_reload,
  restart, apply, replace, patch_found, patch_instance,
}
use openconnectd.Store.{put_instance, delete_instance, get_instance}
use openconnectd.Params.Patch.{apply_instance_patch}

module _ (m : Setting) {P : Cond} where
  Moves-sync : (name : Text) → Moves P P (sync m name)
  unfolding sync on_host
  Moves-sync name = record { at = λ w p. p }

  pub Moves-render_and_write : (in' : Instance) → Moves P P (render_and_write m in')
  unfolding render_and_write write_config
  Moves-render_and_write in' = Moves-bind _ _ (Moves-lift _) λ rendered.
      Moves-bind _ _ (Moves-on_host (call m.env)) λ _.
        Moves-bind _ _ (Moves-on_host (call m.env))
          λ _. Moves-bind _ _ (Moves-sync in'.name) λ _. Moves-on_host _

module _ (m : Setting) where
  abbrev pub Managed : Cond
  Managed = IsManaged m.cfg

  abbrev Known : Text → Cond
  Known name = IsKnown m.cfg name

  Known-Managed : (name : Text) → Implies (Known name) Managed
  Known-Managed name r s h = h.managed

  pub Moves-start_instance :
      (in' : Instance) → Moves (Known in'.name) (Known in'.name) (start_instance m in')
  unfolding start_instance
  Moves-start_instance in' = Moves-bind _ _ (Moves-render_and_write m in') λ _.
      Moves-on_sup (start m.env in'.name (config_path m.cfg in'.name))
        (IsKnown-host m.cfg m.env in'.name) (start-IsKnown m.cfg m.env in'.name)

  Moves-stop : (name : Text) → Moves Managed (IsStopped m.cfg name) (on_sup (stop m.env name))
  Moves-stop name = Moves-on_sup _ (IsManaged-host m.cfg m.env) (stop-IsStopped m.cfg m.env name)

  pub Moves-reload : (name : Text) → Moves Managed Managed (on_sup (reload m.env name))
  Moves-reload name =
      Moves-on_sup _ (IsManaged-host m.cfg m.env) (reload-IsManaged m.cfg m.env name)

  Moves-put_instance :
      (in' : Instance) → Moves Managed (Known in'.name) (on_store (put_instance m.env m.codec in'))
  Moves-put_instance in' = Moves-on_store _ (put_instance-IsKnown m.cfg m.env m.codec in')

  Moves-make_ca : (name : Text) → Moves Managed Managed (make_ca m name)
  unfolding make_ca
  Moves-make_ca name = search moves_rules

  Moves-ensure_pki : (in' : Instance) (ca : Bool) → Moves Managed Managed (ensure_pki m in' ca)
  unfolding ensure_pki
  Moves-ensure_pki in' ca = search (moves_rules, Moves-make_ca)

  Moves-create : (in' : Instance) (ca : Bool) → Moves Managed Managed (create m in' ca)
  unfolding create
  Moves-create in' ca = Moves-bind _ _ (Moves-guard _ _) λ _. Moves-bind _ _ (Moves-refuse _ _) λ _.
      Moves-bind _ _ (Moves-ensure_pki in' ca) λ _.
        Moves-bind _ _ (Moves-render_and_write m in') λ _.
          Moves-then _ _ (Known-Managed in'.name) (Moves-put_instance in') λ _.
            Moves-then _ _ (Known-Managed in'.name)
              (Moves-when in'.enabled _ (Moves-forget _ (Moves-start_instance in')))
              λ _. Moves-gets (Known-Managed in'.name) _

  pub Moves-create_instance :
      (req : InstanceCreateRequest) → Moves Managed Managed (create_instance m req)
  unfolding create_instance
  Moves-create_instance req = Moves-bind _ _ (Moves-refuse _ _) λ _. Moves-create (requested req) _

  pub Moves-delete : (name : Text) → Moves Managed Managed (delete m name)
  unfolding delete
  Moves-delete name = Moves-bind _ _ (Moves-guard _ _) λ _.
      Moves-then _ _ (λ r s h. h.managed) (Moves-forget _ (Moves-stop name))
        λ _.
          Moves-then _ _ (λ r s h. h.managed)
            (Moves-forget _ (Moves-on_host (remove m.env (config_path m.cfg name))))
            λ _.
              Moves-on_store (delete_instance m.env m.codec name)
                (delete_instance-IsManaged m.cfg m.env m.codec name)

  Moves-stop-IsKnown : (name n : Text) → Moves (Known n) (Known n) (on_sup (stop m.env name))
  Moves-stop-IsKnown name n = Moves-on_sup _ (IsKnown-host m.cfg m.env n) (λ r s h. record {
    managed = (stop-IsStopped m.cfg m.env name r s h.managed).managed;
    known = h.known;
  })

  Moves-reload-IsKnown : (name n : Text) → Moves (Known n) (Known n) (on_sup (reload m.env name))
  Moves-reload-IsKnown name n = Moves-on_sup _ (IsKnown-host m.cfg m.env n) (λ r s h. record {
    managed = reload-IsManaged m.cfg m.env name r s h.managed;
    known = h.known;
  })

  Moves-reload_if : (name n : Text) (b : Bool) → Moves (Known n) (Known n) (reload_if m name b)
  unfolding reload_if
  Moves-reload_if name n true = Moves-forget _ (Moves-reload-IsKnown name n)
  Moves-reload_if name n false = Moves-skip

  Moves-start_and_reload :
      (name : Text) (in' : Instance)
      → Moves (Known in'.name) (Known in'.name) (start_and_reload m name in')
  unfolding start_and_reload
  Moves-start_and_reload name in' = search (moves_rules, Moves-start_instance, Moves-reload_if)

  Moves-restart :
      (name : Text) (in' : Instance) → Moves (Known in'.name) (Known in'.name) (restart m name in')
  unfolding restart
  Moves-restart name in' = search (moves_rules, Moves-stop-IsKnown, Moves-start_instance)

  Moves-apply :
      (name : Text) (before in' : Instance)
      → Moves (Known in'.name) (Known in'.name) (apply m name before in')
  unfolding apply
  Moves-apply name before in' =
      search (moves_rules, Moves-restart, Moves-start_and_reload, Moves-stop-IsKnown)

  Moves-replace :
      (name : Text) (before in' : Instance) → Moves Managed Managed (replace m name before in')
  unfolding replace
  Moves-replace name before in' = Moves-bind _ _ (Moves-render_and_write m in') λ _.
      Moves-then _ _ (Known-Managed in'.name) (Moves-put_instance in') λ _.
        Moves-then _ _ (Known-Managed in'.name) (Moves-apply name before in')
          λ _. Moves-gets (Known-Managed in'.name) _

  Moves-patch_found :
      (name : Text) (body : Fields) (o : Option Instance)
      → Moves Managed Managed (patch_found m name body o)
  unfolding patch_found
  Moves-patch_found name body none = Moves-raise (λ r s h. h) _
  Moves-patch_found name body (some in') = Moves-replace name in' (apply_instance_patch in' body)

  pub Moves-patch_instance :
      (name : Text) (body : Fields) → Moves Managed Managed (patch_instance m name body)
  unfolding patch_instance
  Moves-patch_instance name body = record {
    at = λ w p. (Moves-patch_found name body (get_instance w.store.records name)).at w p;
  }
