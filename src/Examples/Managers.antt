-- ===== src/Examples/Managers.antt =====
-- The manager of internal/ocserv/manager.go, its PKI and its run, at concrete states.
use openconnectd.Pki.Revoked.{revoke_loaded, add_revoked, revoked_of}
use openconnectd.Host.{write_file, call, read_file}
use openconnectd.Pki.Authority.{write_crl, load_ca}
use openconnectd.Pki.{ca_cert_path, ca_key_path, new_serial, now, write_pem}
use openconnectd.Pki.Revoked.{revoked_of}
use openconnectd.Pki.{revoked_path}
use openconnectd.Pki.{dir}
use openconnectd.Host.{read_file}
use openconnectd.FilePath.{join}
use openconnectd.FilePath.{clean}
use openconnectd.Base.{ℕ, some, same}
use openconnectd.Base.{◌≡◌, refl, true, false, [], ◌∷◌, none, is_nil, codes, arith}
use openconnectd.Base.Int.{pos}
use openconnectd.Base.Dict.{lookup, insert}
use openconnectd.Strings.{trim_space}
use openconnectd.Api.{Instance, InstanceCreateRequest}
use openconnectd.Errors.{ok, err, client_not_found, instance_name_required, instance_exists}
use openconnectd.Host.{Host}
use openconnectd.Store.{get_client, get_instance, empty_records}
use openconnectd.Store.View.{view, meaning, deletes_instance, deletes_client, puts_instance}
use openconnectd.Store.Invariant.{empty-IsSound}
use openconnectd.Process.{running}
use openconnectd.Pki.{crl_path, entries}
use openconnectd.Pki.Serial.{parse_hex}
use openconnectd.Pki.Revoked.{revoke_client, load_revoked}
use openconnectd.Pki.Revoked.Laws.{Revoked, revoke_client_lem}
use openconnectd.Manager.{World, knows}
use openconnectd.Manager.Instances.{requested, create_instance, delete}
use openconnectd.Manager.Clients.{delete_client_of}
use openconnectd.Manager.Invariant.{IsManaged}
use openconnectd.Manager.Reach.{boots, creates, ends, booted, process_ended, Reach-IsManaged}
use openconnectd.Process.{alive}
use openconnectd.Manager.Config.{config_path}
use openconnectd.Manager.Results.{IsSignalled, delete_lem, delete_client_lem, create_instance_lem}
use openconnectd.Examples.{fine, setting, two, no_files, path, cfg, crypto}

abbrev request : InstanceCreateRequest
request = record {
  name = codes " new";
  listen = [];
  dtls = none;
  tcp_port = pos 0;
  proxy_proto = none;
  pool_cidr = codes "10.9.0.0/24";
  pool_cidr_v6 = [];
  public_endpoint = [];
  local_bind = [];
  auth_mode = [];
  camouflage = none;
  dns = [];
  routes = [];
  enabled = none;
  create_ca_if_empty = false;
}

abbrev world : World
world = booted path (codes "ocserv") no_files two

abbrev fresh : World
fresh = booted path (codes "ocserv") no_files empty_records

Reach-IsManaged_example :
    IsManaged cfg
      (create_instance setting request fresh).1.store.records
      (process_ended 1 (create_instance setting request fresh).1).sup
unfolding create_instance process_ended
Reach-IsManaged_example =
    Reach-IsManaged setting (process_ended 1 (create_instance setting request fresh).1) (
      ends 1 (create_instance setting request fresh).1 (
        creates request fresh
          (boots path (codes "ocserv") no_files empty_records empty-IsSound refl)))

create_instance_lem_example :
    (is_nil (trim_space request.name) ≡ true
      → create_instance setting request world ≡ (err instance_name_required, world))
    × (is_nil (trim_space request.name) ≡ false
        → knows (trim_space request.name) world ≡ true
        → create_instance setting request world
          ≡ (err (instance_exists (trim_space request.name)), world))
    × ((in' : Instance)
        → (create_instance setting request world).0 ≡ ok in'
        → view (create_instance setting request world).1.store.records
          ≡ meaning (puts_instance (requested request)) (view world.store.records))
create_instance_lem_example = create_instance_lem setting request world

-- An instance that runs as the process 1.
abbrev busy : World
busy = record world {
  sup = record world.sup {
    procs = (codes "vpn", 1) ∷ [];
    running = record { pid = 1; config = config_path cfg (codes "vpn") } ∷ [];
    next_pid = 2;
  };
}

delete_lem_example :
    (view (delete setting (codes "vpn") busy).1.store.records
      ≡ meaning (deletes_instance (codes "vpn")) (view two))
    × (running (delete setting (codes "vpn") busy).1.sup (codes "vpn") ≡ false)
    × ((pid : ℕ)
        → lookup (codes "vpn") busy.sup.procs ≡ some pid
        → alive busy.sup pid ≡ true
        → IsSignalled setting.env pid busy (delete setting (codes "vpn") busy).1)
unfolding get_instance lookup booted same
delete_lem_example = delete_lem setting (codes "vpn") busy refl

delete_client_lem_example :
    (get_client two (codes "vpn") (codes "ann") ≡ none
      → delete_client_of setting (codes "vpn") (codes "ann") world
        ≡ (err (client_not_found (codes "ann")), world))
    × ((delete_client_of setting (codes "vpn") (codes "ann") world).0 ≡ ok tt
        → view (delete_client_of setting (codes "vpn") (codes "ann") world).1.store.records
          ≡ meaning (deletes_client (codes "vpn") (codes "ann")) (view two))
unfolding booted
delete_client_lem_example = delete_client_lem setting (codes "vpn") (codes "ann") world

-- A CA whose certificate and key are there.
abbrev with_ca : Host
with_ca = record {
  files =
      (codes "/var/pki/vpn/ca.pem", codes "ca") ∷ (codes "/var/pki/vpn/ca.key", codes "key") ∷ [];
  calls = 0;
}

revoke_client_lem_example :
    Revoked fine crypto
      (codes "/var/pki")
      (codes "vpn")
      (codes "ab")
      with_ca
      (revoke_client fine crypto (codes "/var/pki") (codes "vpn") (codes "ab") with_ca).1
unfolding revoke_client load_revoked revoked_of read_file lookup same revoked_path join dir clean
    revoke_loaded add_revoked write_file write_crl load_ca insert ca_cert_path call parse_hex
    ca_key_path crl_path entries new_serial now write_pem
revoke_client_lem_example =
    revoke_client_lem fine crypto (codes "/var/pki") (codes "vpn") refl (ground arith) (codes "ab")
      with_ca refl
