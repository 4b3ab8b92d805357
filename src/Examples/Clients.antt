-- ===== src/Examples/Clients.antt =====
-- CreateClient and PatchClient of internal/ocserv/manager.go, at concrete requests.
use openconnectd.Base.{[], ◌≡◌, true, false, none, some, codes, is_nil}
use openconnectd.Strings.{trim_space}
use openconnectd.Errors.{
  err, Returns, common_name_required, client_exists, client_not_found, instance_not_found,
}
use openconnectd.Api.{Instance, ClientPeer, ClientCreateRequest, auth_password}
use openconnectd.Store.{get_instance, get_client}
use openconnectd.Store.View.{view, meaning, puts_client}
use openconnectd.Params.Json.{Fields, field, end, bool}
use openconnectd.Manager.{World}
use openconnectd.Manager.Reach.{booted}
use openconnectd.Manager.Clients.{patched, has_client, create_client, patch_client}
use openconnectd.Manager.Clients.Filed.{IsNew, create_client_lem, patch_client_lem}
use openconnectd.Examples.{setting, two, no_files, path}

abbrev world : World
world = booted path (codes "ocserv") no_files two

abbrev request : ClientCreateRequest
request = record {
  name = [];
  common_name = codes " bob ";
  auth_mode = auth_password;
  static_ip = codes "10.8.0.9";
  password = codes "secret";
}

create_client_lem_example :
    let cn = trim_space request.common_name in
    let vpn = codes "vpn" in
    (get_instance two vpn ≡ none
      → create_client setting vpn request world ≡ (err (instance_not_found vpn), world))
    × ((in' : Instance)
        → get_instance two vpn ≡ some in'
        → (is_nil cn ≡ true
            → create_client setting vpn request world ≡ (err common_name_required, world))
          × (is_nil cn ≡ false
              → has_client vpn cn world ≡ true
              → create_client setting vpn request world ≡ (err (client_exists cn), world))
          × Returns
              (λ c.
                IsNew vpn in'.auth_mode request c
                × (view (create_client setting vpn request world).1.store.records
                    ≡ meaning (puts_client vpn c) (view two)))
              (create_client setting vpn request world).0)
unfolding booted
create_client_lem_example = create_client_lem setting (codes "vpn") request world

abbrev suspends : Fields
suspends = field (codes "suspended") (bool true) end

patch_client_lem_example :
    let vpn = codes "vpn" in
    let ann = codes "ann" in
    (get_client two vpn ann ≡ none
      → patch_client setting vpn ann suspends world ≡ (err (client_not_found ann), world))
    × ((c : ClientPeer)
        → get_client two vpn ann ≡ some c
        → Returns
            (λ c'.
              (c' ≡ patched suspends c)
              × (view (patch_client setting vpn ann suspends world).1.store.records
                  ≡ meaning (puts_client vpn c') (view two)))
            (patch_client setting vpn ann suspends world).0)
unfolding booted
patch_client_lem_example = patch_client_lem setting (codes "vpn") (codes "ann") suspends world
