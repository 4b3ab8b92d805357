-- ===== src/Manager/Clients.antt =====
-- The operations on clients of internal/ocserv/manager.go.
pub mod Managed
pub mod Filed
use openconnectd.Base.{
  ◌≡◌, refl, Bool, true, false, ◌||◌, ◌&&◌, not, List, [], ◌∷◌, ◌++◌, map, Option, none, some,
  is_some, Text, codes, is_nil, if◌then◌else◌,
}
use openconnectd.Base.Int.{ℤ, pos}
use openconnectd.Strings.{trim_space}
use openconnectd.Errors
use openconnectd.Errors.{
  Error, Result, ok, err, common_name_required, client_exists, client_not_found, instance_not_found,
  password_required, issue_client, revoke_failed, pin_static_ip,
}
use openconnectd.Exec.{
  Exec, continue, ◌>>=◌, ◌>>◌, lift, pure, raise, skip, refuse, forget, wrapping,
}
use openconnectd.Api.{Instance, ClientPeer, ClientCreateRequest, AuthMode}
use openconnectd.Store.{get_instance, get_client, list_clients, put_client, delete_client}
use openconnectd.Render.{wants_cert}
use openconnectd.Params.{or_string, or_auth}
use openconnectd.Params.Json.{Fields, get, as_string, as_bool}
use openconnectd.Params.Patch.{update}
use openconnectd.PerUser.{write_per_user_config, remove_per_user_config}
use openconnectd.Process.{reload}
use openconnectd.Ocpasswd
use openconnectd.Ocpasswd.{Ocpasswd, delete_user}
use openconnectd.Pki.Certs
use openconnectd.Pki.Certs.{client_bundle}
use openconnectd.Pki.Revoked.{revoke_client}
use openconnectd.Manager.{Setting, World, on_host, on_store, on_sup, guard, knows}
use openconnectd.Manager.Config.{ocpasswd_path, wants_password}
use openconnectd.Manager.Instances.{when}

-- The serial and the expiry of a certificate, if there is one.
abbrev Cert : Type 0
Cert = Text × Option ℤ

-- The record of a new client.
unfoldable pub new_client : Text → Text → AuthMode → ClientCreateRequest → Cert → ClientPeer
new_client instance' cn mode req cert = record {
  name = or_string req.name cn;
  common_name = cn;
  instance_name = instance';
  auth_mode = mode;
  static_ip = req.static_ip;
  enabled = true;
  suspended = false;
  cert_serial = cert.0;
  cert_expiry = cert.1;
}

-- `static_ip`, `suspended` and `enabled` of the body.
unfoldable pub patched : Fields → ClientPeer → ClientPeer
patched body c = record c {
  static_ip = update (as_string (get (codes "static_ip") body)) c.static_ip;
  suspended = update (as_bool (get (codes "suspended") body)) c.suspended;
  enabled = update (as_bool (get (codes "enabled") body)) c.enabled;
}

abbrev pub has_client : Text → Text → World → Bool
has_client instance' cn w = is_some (get_client w.store.records instance' cn)

module _ (m : Setting) where
  unfoldable pub passwords : Text → Text → Ocpasswd
  passwords bin instance' = record { bin = bin; file = ocpasswd_path m.cfg instance' }

  unfoldable pub issue : Text → Text → Exec World Cert
  issue instance' cn = do
    issued ←
        wrapping issue_client
          (on_host (Certs.issue_client m.env m.crypto m.cfg.pki_dir instance' cn (pos 0)))
    pure (issued.serial, some (pos issued.not_after))

  unfoldable pub issue_if : Bool → Text → Text → Exec World Cert
  issue_if true instance' cn = issue instance' cn
  issue_if false instance' cn = pure ([], none)

  unfoldable pub put_password : Text → Text → Text → Text → Exec World (Unit {0})
  put_password bin instance' cn password =
      wrapping Errors.set_password
        (on_host (Ocpasswd.set_password m.env (passwords bin instance') m.tool cn [] password))

  unfoldable pub first_password : Text → Text → AuthMode → Text → Exec World (Unit {0})
  first_password instance' cn mode password = do
    refuse (is_nil password) (password_required mode)
    put_password m.cfg.ocpasswd_bin instance' cn password

  -- The pin, and then the record.
  unfoldable pub pin_and_put : Text → ClientPeer → Exec World ClientPeer
  pin_and_put instance' c = do
    wrapping pin_static_ip
        (on_host (write_per_user_config m.env m.cfg instance' c.common_name c.static_ip))
    on_store (put_client m.env m.codec instance' c)
    pure c

  unfoldable pub create_under : Instance → Text → Text → ClientCreateRequest → Exec World ClientPeer
  create_under in' instance' cn req = do
    refuse (is_nil cn) common_name_required
    guard (has_client instance' cn) (client_exists cn)
    cert ← issue_if (wants_cert (or_auth req.auth_mode in'.auth_mode)) instance' cn
    when (wants_password (or_auth req.auth_mode in'.auth_mode))
        (first_password instance' cn (or_auth req.auth_mode in'.auth_mode) req.password)
    pin_and_put instance' (new_client instance' cn (or_auth req.auth_mode in'.auth_mode) req cert)

  unfoldable pub create_client_of :
      Text → ClientCreateRequest → Option Instance → Exec World ClientPeer
  create_client_of instance' req none = raise (instance_not_found instance')
  create_client_of instance' req (some in') =
      create_under in' instance' (trim_space req.common_name) req

  unfoldable pub create_client : Text → ClientCreateRequest → Exec World ClientPeer
  create_client instance' req w =
      create_client_of instance' req (get_instance w.store.records instance') w

  unfoldable pub list_clients_of : Text → Exec World (List ClientPeer)
  list_clients_of instance' = do
    guard (λ w. not (knows instance' w)) (instance_not_found instance')
    λ w. (ok (list_clients w.store.records instance'), w)

  unfoldable pub revoke : Text → Text → Exec World (Unit {0})
  revoke instance' serial = do
    wrapping revoke_failed (on_host (revoke_client m.env m.crypto m.cfg.pki_dir instance' serial))
    forget (on_sup (reload m.env instance'))

  -- The certificate, the password, the pin and the record; the errors of the two in the middle pass.
  unfoldable pub delete_found : Text → Text → Option ClientPeer → Exec World (Unit {0})
  delete_found instance' cn none = raise (client_not_found cn)
  delete_found instance' cn (some c) = do
    when (not (is_nil c.cert_serial)) (revoke instance' c.cert_serial)
    when (wants_password c.auth_mode)
        (forget (on_host (delete_user m.env (passwords [] instance') cn)))
    forget (on_host (remove_per_user_config m.env m.cfg instance' cn))
    on_store (delete_client m.env m.codec instance' cn)

  unfoldable pub delete_client_of : Text → Text → Exec World (Unit {0})
  delete_client_of instance' cn w =
      delete_found instance' cn (get_client w.store.records instance' cn) w

  -- A password that is there and not empty is set, if the client has one.
  unfoldable pub new_password : Text → Text → AuthMode → Option Text → Exec World (Unit {0})
  new_password instance' cn mode none = skip
  new_password instance' cn mode (some pw) =
      when (not (is_nil pw) && wants_password mode) (put_password [] instance' cn pw)

  unfoldable pub patch_client_of : Text → Text → Fields → Option ClientPeer → Exec World ClientPeer
  patch_client_of instance' cn body none = raise (client_not_found cn)
  patch_client_of instance' cn body (some c) = do
    new_password instance' cn c.auth_mode (as_string (get (codes "password") body))
    pin_and_put instance' (patched body c)

  unfoldable pub patch_client : Text → Text → Fields → Exec World ClientPeer
  patch_client instance' cn body w =
      patch_client_of instance' cn body (get_client w.store.records instance' cn) w

  abbrev profile_header : Instance → Text → Text → Text
  profile_header in' instance' cn =
      codes "# openconnect --user="
      ++ cn
      ++ codes " --servercert=pin-sha256 "
      ++ or_string in'.public_endpoint in'.listen
      ++ codes "\n# OpenConnect/AnyConnect profile for "
      ++ m.quote cn
      ++ codes " on instance "
      ++ m.quote instance'
      ++ codes "\n"

  unfoldable pub profile_body : Text → Text → ClientPeer → Exec World Text
  profile_body instance' cn c =
      if is_nil c.cert_serial
      then pure (codes "# auth: password (username " ++ cn ++ codes ")\n")
      else on_host (client_bundle m.env m.crypto m.cfg.pki_dir instance' c.cert_serial)

  unfoldable pub client_config_of :
      Text → Text → Option Instance → Option ClientPeer → Exec World Text
  client_config_of instance' cn none c = raise (instance_not_found instance')
  client_config_of instance' cn (some in') none = raise (client_not_found cn)
  client_config_of instance' cn (some in') (some c) = do
    body ← profile_body instance' cn c
    pure (profile_header in' instance' cn ++ body)

  unfoldable pub client_config : Text → Text → Exec World Text
  client_config instance' cn w =
      client_config_of instance' cn (get_instance w.store.records instance')
        (get_client w.store.records instance' cn) w
