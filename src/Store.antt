-- ===== src/Store.antt =====
-- internal/state/store.go: the instances and their clients, in memory and in one JSON file. The lock
-- makes each method one step. `Store` holds the host too, since every mutation writes the file.
pub mod Open
pub mod View
pub mod Disk
pub mod Invariant
use openconnectd.Base.{
  ℕ, ◌++◌, ◌≡◌, Bool, Option, none, some, is_some, List, [], ◌∷◌, if◌then◌else◌, Text, codes, not,
  length,
}
use openconnectd.Base.Dict.{Dict, lookup, insert, erase, values}
use openconnectd.Api.{Instance, ClientPeer}
use openconnectd.Errors.{
  Error, Result, ok, err, unknown_instance, parse_state, system, is_not_exist,
}
use openconnectd.Exec.{Exec, ◌>>=◌, ◌>>◌, refuse, skip, raise, pure}
use openconnectd.Host.{Env, Host, call, write_file, read_file, rename}

-- `data` of the source.
pub record Records : Type 0 where
  pub instances : Dict Instance
  pub clients : Dict (Dict ClientPeer)

-- A file as JSON reads it: a map may be missing, or `null`.
pub record RawRecords : Type 0 where
  pub instances : Option (Dict Instance)
  pub clients : Option (Dict (Dict ClientPeer))

-- encoding/json for `Records`. Marshalling these types cannot fail.
pub record Codec : Type 0 where
  pub marshal : Records → Text
  pub unmarshal : Text → Result RawRecords

pub record Store : Type 0 where
  pub path : Text
  pub records : Records
  pub host : Host

abbrev pub or_empty {ℓ} : {V : Type ℓ} → Option (List V) → List V
or_empty none = []
or_empty (some m) = m

abbrev pub empty_records : Records
empty_records = record { instances = []; clients = [] }

abbrev pub fill : RawRecords → Records
fill raw = record { instances = or_empty raw.instances; clients = or_empty raw.clients }

-- `s.data.Clients[instance]`: a missing map is an empty one
abbrev pub clients_of : Records → Text → Dict ClientPeer
clients_of r instance' = or_empty (lookup instance' r.clients)

abbrev pub tmp_path : Text → Text
tmp_path path = path ++ codes ".tmp"

-- The map of an instance that has none is made.
with_clients : Text → Dict (Dict ClientPeer) → Dict (Dict ClientPeer)
with_clients name all_clients =
    if is_some (lookup name all_clients) then all_clients else insert name [] all_clients

-- Nothing is removed from a map that is not there, and the file is written all the same.
remove_client :
    Text → Text → Dict (Dict ClientPeer) → Option (Dict ClientPeer) → Dict (Dict ClientPeer)
remove_client name cn all_clients none = all_clients
remove_client name cn all_clients (some m) = insert name (erase cn m) all_clients

module _ (codec : Codec) where
  parse_file : Text → Text → Result Records
  parse_file path [] = ok empty_records
  parse_file path (c ∷ raw) = elim (codec.unmarshal (c ∷ raw)) [
    | ok r ↦ ok (fill r)
    | err e ↦ err (parse_state path e)
  ]

  load_result : Text → Result Text → Result Records
  unfolding parse_file
  load_result path (ok raw) = parse_file path raw
  load_result path (err e) = if is_not_exist e then ok empty_records else err e

started : Text → Result Records → Host → Result Store × Host
started path (ok r) h = (ok (record { path = path; records = r; host = h }), h)
started path (err e) h = (err e, h)

module _ (env : Env) (codec : Codec) where
  -- flushLocked: the directory, a temporary file beside the real one, and the rename over it
  write_all : Text → Records → Exec Host (Unit {0})
  write_all path r = do
    call env
    write_file env (tmp_path path) (codec.marshal r)
    rename env (tmp_path path) path

  -- `s.data` becomes `r`, and the file follows. The memory keeps `r` if that fails.
  unfoldable pub commit : Records → Exec Store (Unit {0})
  unfolding write_all
  commit r s =
      let (result, h) = write_all s.path r s.host in (result, record s { records = r; host = h })

  unfoldable pub put_instance : Instance → Exec Store (Unit {0})
  unfolding with_clients
  put_instance in' s =
      commit
        (record {
          instances = insert in'.name in' s.records.instances;
          clients = with_clients in'.name s.records.clients;
        })
        s

  unfoldable pub delete_instance : Text → Exec Store (Unit {0})
  delete_instance name s =
      commit
        (record {
          instances = erase name s.records.instances;
          clients = erase name s.records.clients;
        })
        s

  unfoldable pub put_client : Text → ClientPeer → Exec Store (Unit {0})
  put_client name c s =
      if is_some (lookup name s.records.instances)
      then commit
          (record s.records {
            clients =
                insert name (insert c.common_name c (clients_of s.records name)) s.records.clients;
          })
          s
      else (err (unknown_instance name), s)

  unfoldable pub delete_client : Text → Text → Exec Store (Unit {0})
  unfolding remove_client
  delete_client name cn s =
      commit
        (record s.records {
          clients = remove_client name cn s.records.clients (lookup name s.records.clients);
        })
        s

  -- Open: a file that is not there, or is empty, is an empty store
  unfoldable pub open_store : Text → Exec Host Store
  unfolding load_result started
  open_store path h =
      let (r, h') = read_file env path h in started path (load_result codec path r) h'

-- The getters read the memory and nothing else.
unfoldable pub get_instance : Records → Text → Option Instance
get_instance r name = lookup name r.instances

unfoldable pub list_instances : Records → List Instance
list_instances r = values r.instances

unfoldable pub get_client : Records → Text → Text → Option ClientPeer
get_client r name cn = lookup cn (clients_of r name)

unfoldable pub list_clients : Records → Text → List ClientPeer
list_clients r name = values (clients_of r name)

unfoldable pub count_clients : Records → Text → ℕ
count_clients r name = length (clients_of r name)
