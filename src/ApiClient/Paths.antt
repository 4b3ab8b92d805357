-- ===== src/ApiClient/Paths.antt =====
-- The paths of pkg/api/client.go reach the handlers of internal/httpapi/server.go that they name.
use openconnectd.Base.{
  ◌≡◌, refl, ◌∙◌, true, not, [], ◌∷◌, ◌++◌, Option, some, Text, codes, arith, append-nil,
  all-append, ◌==◌,
}
use openconnectd.Strings.{index_byte-none}
use openconnectd.HttpApi.Url.{path_escape}
use openconnectd.HttpApi.Url.Laws.{lacks, path_escape-lacks}
use openconnectd.HttpApi.Mux.{
  Endpoint, Values, locate, located, to_patch_instance, to_delete_instance, to_list_clients,
  to_create_client, to_patch_client, to_delete_client, to_client_config, to_disconnect,
  parse_target,
}
use openconnectd.ApiClient.Calls.{
  instance_path, clients_path, client_path, config_path, session_path,
}
use openconnectd.ApiClient.Names.{IsName, path_escape-IsEscape}
use openconnectd.ApiClient.Targets.{
  aim, at_name, at_names, instance-at, clients-at, client-at, config-at, session-at,
}
use openconnectd.ApiClient.Pieces.{
  split-instance_path, split-clients_path, split-client_path, split-config_path, split-session_path,
}

-- No path of a name has a query.
lacks-piece :
    (a : Text) (n t : Text)
    → IsName n
    → lacks b'?' a ≡ true
    → lacks b'?' t ≡ true
    → lacks b'?' (a ++ (path_escape n ++ t)) ≡ true
lacks-piece a n t h ha ht = ground (
  arith,
  all-append (λ c. not (c == b'?')) a (path_escape n ++ t),
  all-append (λ c. not (c == b'?')) (path_escape n) t,
  (path_escape-lacks n h.bytes).1,
)

-- The handler that a request reaches, and the values that it is given.
abbrev pub arrives : Text → Text → Option (Endpoint × Values)
arrives method target = aim (locate method (parse_target target).0)

no_query : (method t : Text) → lacks b'?' t ≡ true → arrives method t ≡ aim (locate method t)
no_query method t h = rw (index_byte-none b'?' t h) refl

module _ (n : Text) (h : IsName n) where
  instance-arrives :
      (method : Text) (to : Endpoint × Values)
      → aim (located method ([] ∷ codes "v1" ∷ codes "instances" ∷ path_escape n ∷ [])) ≡ some to
      → arrives method (instance_path n) ≡ some to
  unfolding locate
  instance-arrives method to e =
      let plain : lacks b'?' (instance_path n) ≡ true =
        unfold instance_path in
        ground (
          arith,
          append-nil (path_escape n),
          lacks-piece (codes "/v1/instances/") n [] h refl refl,
        ) in
      no_query method (instance_path n) plain ∙ rw (split-instance_path n h) e

  clients-arrives :
      (method : Text) (to : Endpoint × Values)
      → aim (
          located method
            ([] ∷ codes "v1" ∷ codes "instances" ∷ path_escape n ∷ codes "clients" ∷ []))
        ≡ some to
      → arrives method (clients_path n) ≡ some to
  unfolding locate
  clients-arrives method to e =
      let plain : lacks b'?' (clients_path n) ≡ true =
        unfold clients_path in
        lacks-piece (codes "/v1/instances/") n (codes "/clients") h refl refl in
      no_query method (clients_path n) plain ∙ rw (split-clients_path n h) e

  module _ (k : Text) (g : IsName k) where
    lacks-two :
        (a t : Text)
        → lacks b'?' a ≡ true
        → lacks b'?' t ≡ true
        → lacks b'?' (codes "/v1/instances/" ++ (path_escape n ++ (a ++ (path_escape k ++ t))))
          ≡ true
    lacks-two a t ha ht =
        lacks-piece (codes "/v1/instances/") n (a ++ (path_escape k ++ t)) h refl
          (lacks-piece a k t g ha ht)

    client-arrives :
        (method : Text) (to : Endpoint × Values)
        → aim (
            located method (
              []
              ∷ codes "v1"
              ∷ codes "instances"
              ∷ path_escape n
              ∷ codes "clients"
              ∷ path_escape k
              ∷ []))
          ≡ some to
        → arrives method (client_path n k) ≡ some to
    unfolding locate
    client-arrives method to e =
        let plain : lacks b'?' (client_path n k) ≡ true =
          unfold client_path in
          ground (arith, append-nil (path_escape k), lacks-two (codes "/clients/") [] refl refl) in
        no_query method (client_path n k) plain ∙ rw (split-client_path n h k g) e

    config-arrives :
        (method : Text) (to : Endpoint × Values)
        → aim (
            located method (
              []
              ∷ codes "v1"
              ∷ codes "instances"
              ∷ path_escape n
              ∷ codes "clients"
              ∷ path_escape k
              ∷ codes "client-config"
              ∷ []))
          ≡ some to
        → arrives method (config_path n k) ≡ some to
    unfolding locate
    config-arrives method to e =
        let plain : lacks b'?' (config_path n k) ≡ true =
          unfold config_path in lacks-two (codes "/clients/") (codes "/client-config") refl refl in
        no_query method (config_path n k) plain ∙ rw (split-config_path n h k g) e

    session-arrives :
        (method : Text) (to : Endpoint × Values)
        → aim (
            located method (
              []
              ∷ codes "v1"
              ∷ codes "instances"
              ∷ path_escape n
              ∷ codes "sessions"
              ∷ path_escape k
              ∷ []))
          ≡ some to
        → arrives method (session_path n k) ≡ some to
    unfolding locate
    session-arrives method to e =
        let plain : lacks b'?' (session_path n k) ≡ true =
          unfold session_path in
          ground (arith, append-nil (path_escape k), lacks-two (codes "/sessions/") [] refl refl) in
        no_query method (session_path n k) plain ∙ rw (split-session_path n h k g) e

pub arrives_lem :
    (n k : Text)
    → IsName n
    → IsName k
    → (arrives (codes "PATCH") (instance_path n) ≡ some (to_patch_instance, at_name n))
      × (arrives (codes "DELETE") (instance_path n) ≡ some (to_delete_instance, at_name n))
      × (arrives (codes "GET") (clients_path n) ≡ some (to_list_clients, at_name n))
      × (arrives (codes "POST") (clients_path n) ≡ some (to_create_client, at_name n))
      × (arrives (codes "PATCH") (client_path n k) ≡ some (to_patch_client, at_names n k))
      × (arrives (codes "DELETE") (client_path n k) ≡ some (to_delete_client, at_names n k))
      × (arrives (codes "GET") (config_path n k) ≡ some (to_client_config, at_names n k))
      × (arrives (codes "DELETE") (session_path n k) ≡ some (to_disconnect, at_names n k))
arrives_lem n k h g =
    let i = path_escape-IsEscape n h in
    let j = path_escape-IsEscape k g in
    let (patch, delete) = instance-at _ n i in
    let (list, create) = clients-at _ n i in
    let (patch_one, delete_one) = client-at _ n i _ k j in
    (
      instance-arrives n h _ _ patch,
      instance-arrives n h _ _ delete,
      clients-arrives n h _ _ list,
      clients-arrives n h _ _ create,
      client-arrives n h k g _ _ patch_one,
      client-arrives n h k g _ _ delete_one,
      config-arrives n h k g _ _ (config-at _ n i _ k j),
      session-arrives n h k g _ _ (session-at _ n i _ k j),
    )
