-- ===== src/ApiClient/Pieces.antt =====
-- The paths of pkg/api/client.go, split at the slashes: a name is one piece.
use openconnectd.Base.{◌≡◌, refl, [], ◌∷◌, ◌++◌, Text, codes}
use openconnectd.HttpApi.Url.{path_escape, split}
use openconnectd.HttpApi.Url.Laws.{path_escape-lacks, split-append, split-one}
use openconnectd.ApiClient.Calls.{
  instance_path, clients_path, client_path, config_path, session_path,
}
use openconnectd.ApiClient.Names.{IsName}

split-two :
    (n t : Text) → IsName n → split b'/' (path_escape n ++ b'/' ∷ t) ≡ path_escape n ∷ split b'/' t
split-two n t h = split-append b'/' (path_escape n) t (path_escape-lacks n h.bytes).0

split-last : (n : Text) → IsName n → split b'/' (path_escape n) ≡ path_escape n ∷ []
split-last n h = split-one b'/' (path_escape n) (path_escape-lacks n h.bytes).0

module _ (n : Text) (h : IsName n) where
  pub split-instance_path :
      split b'/' (instance_path n) ≡ [] ∷ codes "v1" ∷ codes "instances" ∷ path_escape n ∷ []
  unfolding split instance_path
  split-instance_path = rw (split-last n h) refl

  pub split-clients_path :
      split b'/' (clients_path n)
      ≡ [] ∷ codes "v1" ∷ codes "instances" ∷ path_escape n ∷ codes "clients" ∷ []
  unfolding split clients_path
  split-clients_path = rw (split-two n (codes "clients") h) refl

  module _ (k : Text) (g : IsName k) where
    pub split-client_path :
        split b'/' (client_path n k)
        ≡ [] ∷ codes "v1" ∷ codes "instances" ∷ path_escape n ∷ codes "clients" ∷ path_escape k ∷ []
    unfolding split client_path
    split-client_path =
        rw (split-two n (codes "clients/" ++ path_escape k) h) (rw (split-last k g) refl)

    pub split-config_path :
        split b'/' (config_path n k)
        ≡ []
          ∷ codes "v1"
          ∷ codes "instances"
          ∷ path_escape n
          ∷ codes "clients"
          ∷ path_escape k
          ∷ codes "client-config"
          ∷ []
    unfolding split config_path
    split-config_path =
        rw (split-two n (codes "clients/" ++ (path_escape k ++ codes "/client-config")) h)
          (rw (split-two k (codes "client-config") g) refl)

    pub split-session_path :
        split b'/' (session_path n k)
        ≡ []
          ∷ codes "v1"
          ∷ codes "instances"
          ∷ path_escape n
          ∷ codes "sessions"
          ∷ path_escape k
          ∷ []
    unfolding split session_path
    split-session_path =
        rw (split-two n (codes "sessions/" ++ path_escape k) h) (rw (split-last k g) refl)
