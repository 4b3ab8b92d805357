-- ===== src/ApiClient/Calls.antt =====
-- The calls of pkg/api/client.go: the method and the path of each, and what is sent and read.
use openconnectd.Base.{List, ◌++◌, Option, none, some, Text, codes, is_nil, if◌then◌else◌}
use openconnectd.Strings.{is_blank}
use openconnectd.Errors.{client_cn_required}
use openconnectd.Exec.{Exec, ◌>>=◌, ◌>>◌, lift, refuse}
use openconnectd.Api.{
  VersionInfo, Instance, InstanceCreateRequest, ClientPeer, ClientCreateRequest, Session,
}
use openconnectd.Params.Json.{Fields}
use openconnectd.HttpApi.Url.{path_escape, query_escape}
use openconnectd.ApiClient.{Wire, Transport, Client, send, fetch, text}

-- `"/v1/instances/" + esc(name)`
unfoldable pub instance_path : Text → Text
instance_path name = codes "/v1/instances/" ++ path_escape name

-- What is below an instance.
unfoldable pub clients_path : Text → Text
clients_path name = codes "/v1/instances/" ++ (path_escape name ++ codes "/clients")

unfoldable pub client_path : Text → Text → Text
client_path name cn =
    codes "/v1/instances/" ++ (path_escape name ++ (codes "/clients/" ++ path_escape cn))

unfoldable pub config_path : Text → Text → Text
config_path name cn =
    codes "/v1/instances/"
    ++ (path_escape name ++ (codes "/clients/" ++ (path_escape cn ++ codes "/client-config")))

unfoldable pub session_path : Text → Text → Text
session_path name cn =
    codes "/v1/instances/" ++ (path_escape name ++ (codes "/sessions/" ++ path_escape cn))

unfoldable pub sessions_path : Text → Text
sessions_path name =
    if is_nil name
    then codes "/v1/sessions"
    else codes "/v1/sessions?instance=" ++ query_escape name

module _ (wire : Wire) {S : Type 0} (transport : Transport S) (c : Client) where
  unfoldable pub health : Exec S (Unit {0})
  health = send wire transport c (codes "GET") (codes "/healthz") none

  unfoldable pub version : Exec S (Option VersionInfo)
  version = fetch wire transport c wire.read_version (codes "GET") (codes "/v1/version") none

  unfoldable pub list_instances : Exec S (Option (List Instance))
  list_instances =
      fetch wire transport c wire.read_instances (codes "GET") (codes "/v1/instances") none

  unfoldable pub create_instance : InstanceCreateRequest → Exec S (Option Instance)
  create_instance req = do
    body ← lift (wire.write_instance req)
    fetch wire transport c wire.read_instance (codes "POST") (codes "/v1/instances") (some body)

  unfoldable pub delete_instance : Text → Exec S (Unit {0})
  delete_instance name = send wire transport c (codes "DELETE") (instance_path name) none

  unfoldable pub patch_instance : Text → Fields → Exec S (Option Instance)
  patch_instance name fields = do
    body ← lift (wire.write_fields fields)
    fetch wire transport c wire.read_instance (codes "PATCH") (instance_path name) (some body)

  unfoldable pub list_clients : Text → Exec S (Option (List ClientPeer))
  list_clients name =
      fetch wire transport c wire.read_clients (codes "GET") (clients_path name) none

  unfoldable pub create_client : Text → ClientCreateRequest → Exec S (Option ClientPeer)
  create_client name req = do
    refuse (is_blank req.common_name) client_cn_required
    body ← lift (wire.write_client req)
    fetch wire transport c wire.read_client (codes "POST") (clients_path name) (some body)

  unfoldable pub delete_client : Text → Text → Exec S (Unit {0})
  delete_client name cn = send wire transport c (codes "DELETE") (client_path name cn) none

  unfoldable pub patch_client : Text → Text → Fields → Exec S (Option ClientPeer)
  patch_client name cn fields = do
    refuse (is_blank cn) client_cn_required
    body ← lift (wire.write_fields fields)
    fetch wire transport c wire.read_client (codes "PATCH") (client_path name cn) (some body)

  unfoldable pub client_config : Text → Text → Exec S Text
  client_config name cn = text wire transport c (config_path name cn)

  unfoldable pub sessions : Text → Exec S (Option (List Session))
  sessions name = fetch wire transport c wire.read_sessions (codes "GET") (sessions_path name) none

  unfoldable pub disconnect : Text → Text → Exec S (Unit {0})
  disconnect name cn = send wire transport c (codes "DELETE") (session_path name cn) none
