-- ===== src/Examples/Apis.antt =====
-- The API of internal/httpapi/server.go, its client of pkg/api/client.go and the daemon of
-- cmd/openconnectd/main.go, at concrete requests.
use openconnectd.Store.{open_store}
use openconnectd.Host.{Host, read_file}
use openconnectd.FilePath.{join}
use openconnectd.FilePath.{clean}
use openconnectd.Base.Dict.{lookup}
use openconnectd.Base.{
  ◌≡◌, ◌↔◌, ◌⊎◌, refl, sym, ap, true, false, List, [], ◌∷◌, ◌++◌, none, some, Text, codes, drop,
  arith,
}
use openconnectd.Base.Int.{pos}
use openconnectd.Api.{InstanceCreateRequest}
use openconnectd.Errors.{ok, err, system}
use openconnectd.Store.{RawRecords, empty_records, fill}
use openconnectd.Base.{same, if◌then◌else◌, ◌∙◌}
use openconnectd.Store.Invariant.{empty-IsSound}
use openconnectd.DaemonConfig
use openconnectd.DaemonConfig.{default_config}
use openconnectd.Params.Json.{end}
use openconnectd.Manager.{Setting, World}
use openconnectd.Manager.Invariant.{IsManaged, is_filed}
use openconnectd.Manager.Reach.{booted}
use openconnectd.Manager.Instances
use openconnectd.Manager.Clients
use openconnectd.Manager.Live
use openconnectd.HttpApi.{Request, Server, authorized}
use openconnectd.HttpApi.Serve.{serve}
use openconnectd.HttpApi.Safety.{IsPublic, authorized_iff, serve-closed}
use openconnectd.HttpApi.Reads.{serve-is_safe}
use openconnectd.ApiClient.{Client, Wire}
use openconnectd.ApiClient.Calls
use openconnectd.ApiClient.Calls.{sessions_path}
use openconnectd.ApiClient.Names.{IsName}
use openconnectd.ApiClient.Through.{through, Agrees, calls_lem}
use openconnectd.Daemon.{Flags, Event, request, process_ends, with_config, boot, live}
use openconnectd.Daemon.Managed.{HasWritten, state_path, live-IsManaged}
use openconnectd.Examples.{vpn, setting, two, no_files, path, codec_of}

abbrev wanted : InstanceCreateRequest
wanted = record {
  name = codes "new";
  listen = [];
  dtls = none;
  tcp_port = pos 0;
  proxy_proto = none;
  pool_cidr = codes "10.9.0.0/24";
  pool_cidr_v6 = [];
  public_endpoint = [];
  local_bind = [];
  auth_mode = [];
  camouflage = none;
  dns = [];
  routes = [];
  enabled = none;
  create_ca_if_empty = false;
}

abbrev server_of : Setting → Server
server_of m = record {
  setting = m;
  version = codes "1";
  commit = [];
  canceled = λ e. false;
  read_instance = λ t. ok wanted;
  read_client = λ t. err (system (codes "EOF"));
  read_fields = λ t. ok end;
}

abbrev server : Server
server = server_of setting

abbrev world : World
world = booted path (codes "ocserv") no_files two

-- The daemon's token is "t".
abbrev with_token : Text → Text → Text → Request
with_token token method target = record {
  method = method;
  target = target;
  authorization = codes "Bearer " ++ token;
  body = [];
}

serve-closed_example :
    let wrong = with_token (codes "s") (codes "DELETE") (codes "/v1/instances/vpn") in
    IsPublic (serve server wrong world).0 × ((serve server wrong world).1 ≡ world)
unfolding authorized same
serve-closed_example =
    serve-closed server (with_token (codes "s") (codes "DELETE") (codes "/v1/instances/vpn")) refl
      world

authorized_iff_example :
    (authorized (codes "t") (codes "Bearer t") ≡ true)
    ↔ ((codes "t" ≡ []) ⊎ (drop 7 (codes "Bearer t") ≡ codes "t"))
authorized_iff_example = authorized_iff (codes "t") (codes "Bearer t")

serve-is_safe_example :
    let asks = with_token (codes "t") (codes "GET") (codes "/v1/bans") in
    ((serve server asks world).1.store.records ≡ two)
    × ((serve server asks world).1.sup ≡ world.sup)
unfolding same booted
serve-is_safe_example =
    serve-is_safe server (with_token (codes "t") (codes "GET") (codes "/v1/bans")) world refl

abbrev slashed : Text
slashed = codes "a/b"

abbrev spaced : Text
spaced = codes "a ?"

-- No value is written or read.
abbrev wire : Wire
wire = record {
  write_instance = λ req. ok (codes "{}");
  write_client = λ req. ok (codes "{}");
  write_fields = λ fs. ok (codes "{}");
  read_error = λ t. err (system (codes "EOF"));
  read_version = λ t. err (system (codes "EOF"));
  read_instance = λ t. err (system (codes "EOF"));
  read_instances = λ t. err (system (codes "EOF"));
  read_client = λ t. err (system (codes "EOF"));
  read_clients = λ t. err (system (codes "EOF"));
  read_sessions = λ t. err (system (codes "EOF"));
}

abbrev client : Client
client = record { base_url = codes "http://127.0.0.1:51990"; token = codes "t" }

vpn-IsName : IsName (codes "vpn")
unfolding same
vpn-IsName = record {
  bytes = (ground arith, (ground arith, (ground arith, tt)));
  some_value = refl;
  no_dots = refl;
}

ann-IsName : IsName (codes "ann")
unfolding same
ann-IsName = record {
  bytes = (ground arith, (ground arith, (ground arith, tt)));
  some_value = refl;
  no_dots = refl;
}

calls_lem_example :
    let daemon = through server (λ v. []) client.base_url in
    Agrees
      (Calls.delete_instance wire daemon client (codes "vpn") world)
      (Instances.delete setting (codes "vpn") world)
    × Agrees
        (Calls.delete_client wire daemon client (codes "vpn") (codes "ann") world)
        (Clients.delete_client_of setting (codes "vpn") (codes "ann") world)
    × Agrees
        (Calls.disconnect wire daemon client (codes "vpn") (codes "ann") world)
        (Live.disconnect setting (codes "vpn") (codes "ann") world)
calls_lem_example =
    calls_lem server (λ v. []) wire client refl (codes "vpn") (codes "ann") world vpn-IsName
      ann-IsName

-- A daemon whose state file is there; of other texts the codec makes records that are not sound.
abbrev others : RawRecords
others = record {
  instances = some ((codes "a", record vpn { name = codes "b" }) ∷ []);
  clients = none;
}

abbrev fresh : Server
fresh = server_of (record setting {
  codec = record (codec_of empty_records) {
    unmarshal = λ t.
        ok (
          if same t (codes "{}")
          then record { instances = some []; clients = some [] }
          else others);
  };
})

abbrev state_file : Text
state_file = codes "/var/lib/openconnectd/state/state.json"

abbrev with_state : Host
with_state = record { files = (state_file, codes "{}") ∷ []; calls = 0 }

abbrev flags : Flags
flags = record { config = []; listen = codes "127.0.0.1:80" }

abbrev running_config : DaemonConfig.Config
running_config = record default_config { listen = codes "127.0.0.1:80" }

abbrev first : World
first = booted state_file [] (record with_state { calls = 1 }) empty_records

abbrev events : List Event
events =
    request (with_token [] (codes "POST") (codes "/v1/instances"))
    ∷ process_ends 1
    ∷ request (with_token [] (codes "DELETE") (codes "/v1/instances/new"))
    ∷ []

state_text : (t : Text) → lookup state_file with_state.files ≡ some t → t ≡ codes "{}"
unfolding lookup same
state_text t e = ground arith

with_state-HasWritten : HasWritten fresh.setting.codec (state_path running_config) with_state
unfolding join default_config clean same lookup
with_state-HasWritten t there raw e =
    let text : t ≡ codes "{}" = state_text t there in
    let e' : fresh.setting.codec.unmarshal (codes "{}") ≡ ok raw =
      sym (ap fresh.setting.codec.unmarshal text) ∙ e in
    let same_records : fill (record { instances = some []; clients = some [] }) ≡ fill raw = cc in
    (rw (← same_records) empty-IsSound, sym (ap (λ r. is_filed r.instances) same_records))

live-IsManaged_example :
    IsManaged running_config
      (live (with_config fresh running_config) events first).store.records
      (live (with_config fresh running_config) events first).sup
unfolding boot DaemonConfig.load open_store read_file lookup join default_config clean same
live-IsManaged_example =
    live-IsManaged fresh (λ t c. ok c) flags with_state running_config first events
      with_state-HasWritten refl
