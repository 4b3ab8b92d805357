-- ===== src/HttpApi/Handlers.antt =====
-- The handlers of internal/httpapi/server.go.
use openconnectd.Base.{Option, none, some, Text, codes}
use openconnectd.Api.{Instance}
use openconnectd.Version.{resolve}
use openconnectd.Manager.Instances
use openconnectd.Manager.Clients
use openconnectd.Manager.Live
use openconnectd.HttpApi.{
  Request, Response, Server, Answer, version_info, instances, instance_of, clients, client_of,
  sessions, bans, plain, write_json, write_err, no_content, healthy, answer, decode,
}
use openconnectd.HttpApi.Mux.{
  Endpoint, to_health, to_version, to_list_instances, to_create_instance, to_get_instance,
  to_patch_instance, to_delete_instance, to_list_clients, to_create_client, to_patch_client,
  to_delete_client, to_client_config, to_list_sessions, to_list_bans, to_unban, to_disconnect,
  Values, path_value, query_get,
}

-- What GET of one instance answers.
abbrev shown : Option Instance → Response
shown none = write_err 404 (codes "not_found") (codes "instance not found")
shown (some in') = write_json 200 (instance_of in')

abbrev text_answer : Text → Response
text_answer t = record { status = 200; content = plain t }

module _ (s : Server) where
  -- The version of ocserv is read each time.
  unfoldable pub version : Answer
  version w =
      let (found, h) = resolve s.setting.env s.setting.prints s.setting.cfg.ocserv_bin w.host in
      (
        write_json 200 (
            version_info (record {
              version = s.version;
              commit = s.commit;
              ocserv_path = found.0;
              ocserv_ver = found.1;
            })),
        record w { host = h },
      )

  abbrev create_instance : Request → Answer
  create_instance req = decode s (s.read_instance req.body) λ asked.
      answer s (codes "create_instance") (λ in'. write_json 201 (instance_of in'))
        (Instances.create_instance s.setting asked)

  abbrev patch_instance : Text → Request → Answer
  patch_instance name req = decode s (s.read_fields req.body) λ body.
      answer s (codes "patch_instance") (λ in'. write_json 200 (instance_of in'))
        (Instances.patch_instance s.setting name body)

  abbrev delete_instance : Text → Answer
  delete_instance name =
      answer s (codes "delete_instance") (λ _. no_content) (Instances.delete s.setting name)

  abbrev list_clients : Text → Answer
  list_clients name =
      answer s (codes "list_clients") (λ cs. write_json 200 (clients cs))
        (Clients.list_clients_of s.setting name)

  abbrev create_client : Text → Request → Answer
  create_client name req = decode s (s.read_client req.body) λ asked.
      answer s (codes "create_client") (λ c. write_json 201 (client_of c))
        (Clients.create_client s.setting name asked)

  abbrev patch_client : Text → Text → Request → Answer
  patch_client name cn req = decode s (s.read_fields req.body) λ body.
      answer s (codes "patch_client") (λ c. write_json 200 (client_of c))
        (Clients.patch_client s.setting name cn body)

  abbrev delete_client : Text → Text → Answer
  delete_client name cn =
      answer s (codes "delete_client") (λ _. no_content)
        (Clients.delete_client_of s.setting name cn)

  abbrev client_config : Text → Text → Answer
  client_config name cn =
      answer s (codes "client_config") text_answer (Clients.client_config s.setting name cn)

  abbrev list_sessions : Text → Answer
  list_sessions name =
      answer s (codes "sessions") (λ xs. write_json 200 (sessions xs))
        (Live.sessions s.setting name)

  abbrev list_bans : Answer
  list_bans = answer s (codes "bans") (λ bs. write_json 200 (bans bs)) (Live.bans s.setting)

  abbrev unban : Text → Answer
  unban ip = answer s (codes "unban") (λ _. no_content) (Live.unban s.setting ip)

  abbrev disconnect : Text → Text → Answer
  disconnect name cn =
      answer s (codes "disconnect") (λ _. no_content) (Live.disconnect s.setting name cn)

  -- The handler of a route, at the values of its wildcards.
  unfoldable pub perform : Endpoint → Values → Text → Request → Answer
  perform to_health vs query req w = (healthy, w)
  perform to_version vs query req w = version w
  perform to_list_instances vs query req w = (write_json 200 (instances (Instances.list_all w)), w)
  perform to_create_instance vs query req w = create_instance req w
  perform to_get_instance vs query req w =
      (shown (Instances.get (path_value (codes "name") vs) w), w)
  perform to_patch_instance vs query req w = patch_instance (path_value (codes "name") vs) req w
  perform to_delete_instance vs query req w = delete_instance (path_value (codes "name") vs) w
  perform to_list_clients vs query req w = list_clients (path_value (codes "name") vs) w
  perform to_create_client vs query req w = create_client (path_value (codes "name") vs) req w
  perform to_patch_client vs query req w =
      patch_client (path_value (codes "name") vs) (path_value (codes "cn") vs) req w
  perform to_delete_client vs query req w =
      delete_client (path_value (codes "name") vs) (path_value (codes "cn") vs) w
  perform to_client_config vs query req w =
      client_config (path_value (codes "name") vs) (path_value (codes "cn") vs) w
  perform to_list_sessions vs query req w = list_sessions (query_get (codes "instance") query) w
  perform to_list_bans vs query req w = list_bans w
  perform to_unban vs query req w = unban (path_value (codes "ip") vs) w
  perform to_disconnect vs query req w =
      disconnect (path_value (codes "name") vs) (path_value (codes "cn") vs) w
