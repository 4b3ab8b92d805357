-- ===== src/Examples.antt =====
-- Concrete values, on which the theorems are applied.
mod Stores
mod Files
mod Processes
mod Managers
mod Clients
mod Helpers
mod Apis
mod Lives
mod Screens
use openconnectd.Base.{
  ℕ, ◌+◌, length, ◌≡◌, refl, true, false, List, [], ◌∷◌, Option, none, some, Text, codes,
}
use openconnectd.Base.Int.{ℤ, pos}
use openconnectd.Base.Dict.{Dict}
use openconnectd.Api.{
  Instance, Camouflage, ClientPeer, InstanceCreateRequest, auth_cert, auth_password,
}
use openconnectd.Errors.{Result, ok, err, system}
use openconnectd.Host.{Env, Host, Outcome, done, torn}
use openconnectd.Store.{Records, RawRecords, Codec, Store}
use openconnectd.Process.{Supervisor}
use openconnectd.Pki.{Crypto}
use openconnectd.Manager.{Setting, World}
use openconnectd.DaemonConfig
use openconnectd.Occtl.{Reader}

-- Every call succeeds.
abbrev pub fine : Env
fine = record { outcome = λ n. done; output = λ n. []; clock = λ n. 1700000000 }

-- Every write stops behind its first byte.
abbrev pub full : Env
full = record {
  outcome = λ n. torn (codes "disk full") 1;
  output = λ n. [];
  clock = λ n. 1700000000;
}

abbrev pub no_camouflage : Camouflage
no_camouflage = record { enabled = false; secret = []; realm = []; decoy_html = [] }

abbrev pub vpn : Instance
vpn = record {
  name = codes "vpn";
  listen = codes "vpn.example.com:8443";
  dtls = true;
  tcp_port = pos 4443;
  proxy_proto = false;
  pool_cidr = codes "10.8.0.0/24";
  pool_cidr_v6 = [];
  public_endpoint = codes "vpn.example.com:8443";
  local_bind = [];
  auth_mode = auth_cert;
  camouflage = no_camouflage;
  dns = codes "1.1.1.1" ∷ [];
  routes = codes "10.1.0.0/16" ∷ codes "10.0.0.0/16" ∷ codes "10.1.0.0/16" ∷ [];
  enabled = true;
  up = false;
  client_count = pos 0;
  session_count = pos 0;
}

abbrev pub ann : ClientPeer
ann = record {
  name = codes "Ann";
  common_name = codes "ann";
  instance_name = codes "vpn";
  auth_mode = auth_password;
  static_ip = codes "10.8.0.7";
  enabled = true;
  suspended = false;
  cert_serial = [];
  cert_expiry = none;
}

abbrev pub two : Records
two = record {
  instances = (codes "vpn", vpn) ∷ (codes "lab", record vpn { name = codes "lab" }) ∷ [];
  clients = (codes "vpn", (codes "ann", ann) ∷ []) ∷ [];
}

-- A codec for the one value that is written.
abbrev pub codec_of : Records → Codec
codec_of r = record {
  marshal = λ _. codes "{}";
  unmarshal = λ _. ok (record { instances = some r.instances; clients = some r.clients });
}

abbrev pub no_files : Host
no_files = record { files = []; calls = 0 }

abbrev pub path : Text
path = codes "/var/lib/state.json"

abbrev pub store : Store
store = record { path = path; records = two; host = no_files }

abbrev pub cfg : DaemonConfig.Config
cfg = record {
  listen = codes "127.0.0.1:51990";
  token = codes "t";
  token_file = [];
  ocserv_bin = codes "/usr/sbin/ocserv";
  occtl_bin = [];
  ocpasswd_bin = codes "/usr/bin/ocpasswd";
  state_dir = codes "/var/lib";
  config_dir = codes "/etc/oc";
  pki_dir = codes "/var/pki";
  run_dir = codes "/run/oc";
  metrics_listen = [];
}

-- A certificate is its common name, and a list its serials' count.
abbrev pub crypto : Crypto
crypto = record {
  key_at = λ n. n ∷ [];
  random_at = λ n. n + 171;
  create_certificate = λ t parent key signer. ok t.common_name;
  create_revocation_list = λ l cert key. ok (length l.revoked ∷ []);
  encode_pem = λ kind der. der;
  decode_pem = λ pem. some pem;
  parse_certificate = λ der. ok tt;
  parse_private_key = λ der. ok tt;
  marshal_revoked = λ revoked. codes "{}";
  unmarshal_revoked = λ t. ok [];
}

-- Nothing that occtl prints has rows.
abbrev pub reader : Reader
reader = record {
  parse_float = λ s. ok 0;
  unmarshal_users = λ number s. ok [];
  unmarshal_bans = λ number s. ok [];
}

abbrev pub setting : Setting
setting = record {
  env = fine;
  codec = codec_of two;
  crypto = crypto;
  quote = λ t. t;
  tool = λ bin args stdin h. (ok tt, [], h);
  prints = λ bin args n. (ok tt, []);
  reader = reader;
  cfg = cfg;
}
