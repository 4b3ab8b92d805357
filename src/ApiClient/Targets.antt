-- ===== src/ApiClient/Targets.antt =====
-- The routes of internal/httpapi/server.go for the segments that pkg/api/client.go asks for.
use openconnectd.Base.{◌≡◌, refl, [], ◌∷◌, Option, none, some, Text, codes, same}
use openconnectd.HttpApi.Url.{path_unescape}
use openconnectd.HttpApi.Mux.{
  Endpoint, Values, Target, found, located, to_patch_instance, to_delete_instance, to_list_clients,
  to_create_client, to_patch_client, to_delete_client, to_client_config, to_disconnect, select,
  routes, match,
}
use openconnectd.ApiClient.Names.{IsEscape}

-- The handler, and the values it is given.
abbrev pub aim : Option Target → Option (Endpoint × Values)
aim (some (found r vs)) = some (r.endpoint, vs)
aim _ = none

are_read :
    (path_unescape (codes "v1") ≡ some (codes "v1"))
    × (path_unescape (codes "instances") ≡ some (codes "instances"))
    × (path_unescape (codes "clients") ≡ some (codes "clients"))
    × (path_unescape (codes "sessions") ≡ some (codes "sessions"))
    × (path_unescape (codes "client-config") ≡ some (codes "client-config"))
unfolding path_unescape
are_read = (refl, refl, refl, refl, refl)

abbrev pub at_name : Text → Values
at_name n = (codes "name", n) ∷ []

abbrev pub at_names : Text → Text → Values
at_names n k = (codes "name", n) ∷ (codes "cn", k) ∷ []

-- The routes for the segments of an instance, and for those below it.
module _ (e n : Text) (i : IsEscape e n) where
  pub instance-at :
      (aim (located (codes "PATCH") ([] ∷ codes "v1" ∷ codes "instances" ∷ e ∷ []))
        ≡ some (to_patch_instance, at_name n))
      × (aim (located (codes "DELETE") ([] ∷ codes "v1" ∷ codes "instances" ∷ e ∷ []))
          ≡ some (to_delete_instance, at_name n))
  unfolding select routes match same
  instance-at =
      let (a, b, c, f, g) = are_read in
      (
        rw (a, b, i.is_read, i.no_dots, i.is_name) refl,
        rw (a, b, i.is_read, i.no_dots, i.is_name) refl,
      )

  pub clients-at :
      (aim (located (codes "GET") ([] ∷ codes "v1" ∷ codes "instances" ∷ e ∷ codes "clients" ∷ []))
        ≡ some (to_list_clients, at_name n))
      × (aim (
            located (codes "POST") ([] ∷ codes "v1" ∷ codes "instances" ∷ e ∷ codes "clients" ∷ []))
          ≡ some (to_create_client, at_name n))
  unfolding select routes match same
  clients-at =
      let (a, b, c, f, g) = are_read in
      (
        rw (a, b, c, i.is_read, i.no_dots, i.not_empty, i.is_name) refl,
        rw (a, b, c, i.is_read, i.no_dots, i.not_empty, i.is_name) refl,
      )

  module _ (x k : Text) (j : IsEscape x k) where
    pub client-at :
        (aim (
            located
              (codes "PATCH")
              ([] ∷ codes "v1" ∷ codes "instances" ∷ e ∷ codes "clients" ∷ x ∷ []))
          ≡ some (to_patch_client, at_names n k))
        × (aim (
              located
                (codes "DELETE")
                ([] ∷ codes "v1" ∷ codes "instances" ∷ e ∷ codes "clients" ∷ x ∷ []))
            ≡ some (to_delete_client, at_names n k))
    unfolding select routes match same
    client-at =
        let (a, b, c, f, g) = are_read in
        (
          rw
              (
                a, b, c, i.is_read, j.is_read, i.no_dots, j.no_dots, i.not_empty, i.is_name,
                j.is_name,
              )
              refl,
          rw
              (
                a, b, c, i.is_read, j.is_read, i.no_dots, j.no_dots, i.not_empty, i.is_name,
                j.is_name,
              )
              refl,
        )

    pub config-at :
        aim (
          located (codes "GET") (
            []
            ∷ codes "v1"
            ∷ codes "instances"
            ∷ e
            ∷ codes "clients"
            ∷ x
            ∷ codes "client-config"
            ∷ []))
        ≡ some (to_client_config, at_names n k)
    unfolding select routes match same
    config-at =
        let (a, b, c, f, g) = are_read in
        rw
          (
            a, b, c, g, i.is_read, j.is_read, i.no_dots, j.no_dots, i.not_empty, j.not_empty,
            i.is_name, j.is_name,
          )
          refl

    pub session-at :
        aim (
          located
            (codes "DELETE")
            ([] ∷ codes "v1" ∷ codes "instances" ∷ e ∷ codes "sessions" ∷ x ∷ []))
        ≡ some (to_disconnect, at_names n k)
    unfolding select routes match same
    session-at =
        let (a, b, c, f, g) = are_read in
        rw (a, b, f, i.is_read, j.is_read, i.no_dots, j.no_dots, i.not_empty, i.is_name, j.is_name)
          refl
