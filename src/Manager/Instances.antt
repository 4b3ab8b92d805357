-- ===== src/Manager/Instances.antt =====
-- The operations on instances of internal/ocserv/manager.go.
pub mod Managed
use openconnectd.Base.{
  ◌≡◌, refl, Bool, true, false, ◌||◌, not, List, [], ◌∷◌, map, Option, none, some, Text, is_nil,
  if◌then◌else◌,
}
use openconnectd.Base.Int.{pos}
use openconnectd.Strings.{trim_space}
use openconnectd.Errors
use openconnectd.Errors.{
  Error, Result, ok, err, is_ok, instance_name_required, instance_exists, instance_not_found,
  pool_cidr_required,
}
use openconnectd.Exec.{
  Exec, continue, ◌>>=◌, ◌>>◌, lift, pure, raise, skip, refuse, forget, attempt, wrapping,
}
use openconnectd.Host.{remove}
use openconnectd.Api.{Instance, InstanceCreateRequest, Camouflage, auth_cert}
use openconnectd.Store.{get_instance, list_instances, put_instance, delete_instance}
use openconnectd.Render.{wants_cert}
use openconnectd.Params.{or_string, or_auth, bool_or, hosts_of, listeners_differ}
use openconnectd.Params.Json.{Fields}
use openconnectd.Params.Patch.{apply_instance_patch}
use openconnectd.Process.{stop, reload}
use openconnectd.Pki.Authority.{ensure_ca}
use openconnectd.Pki.Certs.{ensure_server_cert}
use openconnectd.Base.{codes}
use openconnectd.Manager.{Setting, World, on_host, on_store, on_sup, guard, knows, decorate}
use openconnectd.Manager.Config.{config_path}
use openconnectd.Manager.Files.{render_and_write, start_instance}

abbrev no_camouflage : Camouflage
no_camouflage = record { enabled = false; secret = []; realm = []; decoy_html = [] }

abbrev or_none : Option Camouflage → Camouflage
or_none none = no_camouflage
or_none (some c) = c

-- The instance that a request asks for.
unfoldable pub requested : InstanceCreateRequest → Instance
requested req = record {
  name = trim_space req.name;
  listen = or_string req.listen (codes ":443");
  dtls = bool_or req.dtls true;
  tcp_port = req.tcp_port;
  proxy_proto = bool_or req.proxy_proto false;
  pool_cidr = req.pool_cidr;
  pool_cidr_v6 = req.pool_cidr_v6;
  public_endpoint = req.public_endpoint;
  local_bind = req.local_bind;
  auth_mode = or_auth req.auth_mode auth_cert;
  camouflage = or_none req.camouflage;
  dns = req.dns;
  routes = req.routes;
  enabled = bool_or req.enabled true;
  up = false;
  client_count = pos 0;
  session_count = pos 0;
}

-- What is read without a change.
unfoldable pub list_all : World → List Instance
list_all w = map (λ in'. decorate in' w) (list_instances w.store.records)

unfoldable pub get : Text → World → Option Instance
get name w = elim (get_instance w.store.records name) [
  | none ↦ none
  | some in' ↦ some (decorate in' w)
]

unfoldable pub when : Bool → Exec World (Unit {0}) → Exec World (Unit {0})
when true a = a
when false a = skip

module _ (m : Setting) where
  unfoldable pub make_ca : Text → Exec World (Unit {0})
  make_ca name =
      wrapping Errors.ensure_ca (on_host (ensure_ca m.env m.crypto m.cfg.pki_dir name)) >>= λ _.
      skip

  -- The client CA, if one is needed, and always a server certificate.
  unfoldable pub ensure_pki : Instance → Bool → Exec World (Unit {0})
  ensure_pki in' ca = do
    when ca (make_ca in'.name)
    wrapping Errors.ensure_server_cert (
        on_host
          (ensure_server_cert m.env m.crypto m.cfg.pki_dir in'.name (hosts_of in'.public_endpoint)))

  unfoldable pub create : Instance → Bool → Exec World Instance
  create in' ca = do
    guard (knows in'.name) (instance_exists in'.name)
    refuse (is_nil in'.pool_cidr) pool_cidr_required
    ensure_pki in' ca
    render_and_write m in'
    on_store (put_instance m.env m.codec in')
    when in'.enabled (forget (start_instance m in'))
    λ w. (ok (decorate in' w), w)

  -- An instance that does not start is kept.
  unfoldable pub create_instance : InstanceCreateRequest → Exec World Instance
  create_instance req = do
    refuse (is_nil (trim_space req.name)) instance_name_required
    create (requested req) (wants_cert (or_auth req.auth_mode auth_cert) || req.create_ca_if_empty)

  unfoldable pub delete : Text → Exec World (Unit {0})
  delete name = do
    guard (λ w. not (knows name w)) (instance_not_found name)
    forget (on_sup (stop m.env name))
    forget (on_host (remove m.env (config_path m.cfg name)))
    on_store (delete_instance m.env m.codec name)

  unfoldable pub reload_if : Text → Bool → Exec World (Unit {0})
  reload_if name true = forget (on_sup (reload m.env name))
  reload_if name false = skip

  unfoldable pub start_and_reload : Text → Instance → Exec World (Unit {0})
  start_and_reload name in' = do
    started ← attempt (start_instance m in')
    reload_if name (is_ok started)

  unfoldable pub restart : Text → Instance → Exec World (Unit {0})
  restart name in' = do forget (on_sup (stop m.env name)); start_instance m in'

  -- A restart if ocserv has to rebind, else a start, which does nothing to one that runs, and a reload
  unfoldable pub apply : Text → Instance → Instance → Exec World (Unit {0})
  apply name before in' =
      if in'.enabled
      then (if listeners_differ before in' then restart name in' else start_and_reload name in')
      else forget (on_sup (stop m.env name))

  unfoldable pub replace : Text → Instance → Instance → Exec World Instance
  replace name before in' = do
    render_and_write m in'
    on_store (put_instance m.env m.codec in')
    apply name before in'
    λ w. (ok (decorate in' w), w)

  unfoldable pub patch_found : Text → Fields → Option Instance → Exec World Instance
  patch_found name body none = raise (instance_not_found name)
  patch_found name body (some in') = replace name in' (apply_instance_patch in' body)

  unfoldable pub patch_instance : Text → Fields → Exec World Instance
  patch_instance name body w = patch_found name body (get_instance w.store.records name) w

  -- Every enabled instance, and no error stops it.
  unfoldable pub reconcile_all : List Instance → Exec World (Unit {0})
  reconcile_all [] = skip
  reconcile_all (in' ∷ rest) = do
    when in'.enabled (forget (start_instance m in'))
    reconcile_all rest

  unfoldable pub reconcile : Exec World (Unit {0})
  reconcile w = reconcile_all (list_instances w.store.records) w
