-- ===== src/Params/Patch.antt =====
-- applyInstancePatch of internal/ocserv/manager.go, and what it leaves alone.
use openconnectd.Base.{◌≡◌, refl, Option, none, some, Text, List, codes}
use openconnectd.Api.{Instance, Camouflage}
use openconnectd.Params.Json.{
  Items, Fields, get, as_string, as_bool, as_int, as_array, as_object, to_strings,
}

-- The value of a key that is there with the right type, or what was there before.
pub update {ℓ} : {A : Type ℓ} → Option A → A → A
update none old = old
update (some new) old = new

pub update_list : Option Items → List Text → List Text
update_list none old = old
update_list (some xs) old = to_strings xs

pub patch_camouflage : Option Fields → Camouflage → Camouflage
patch_camouflage none c = c
patch_camouflage (some cam) c = record c {
  enabled = update (as_bool (get (codes "enabled") cam)) c.enabled;
  secret = update (as_string (get (codes "secret") cam)) c.secret;
  realm = update (as_string (get (codes "realm") cam)) c.realm;
}

unfoldable pub apply_instance_patch : Instance → Fields → Instance
apply_instance_patch in' body = record in' {
  local_bind = update (as_string (get (codes "local_bind") body)) in'.local_bind;
  public_endpoint = update (as_string (get (codes "public_endpoint") body)) in'.public_endpoint;
  enabled = update (as_bool (get (codes "enabled") body)) in'.enabled;
  dtls = update (as_bool (get (codes "dtls") body)) in'.dtls;
  tcp_port = update (as_int (get (codes "tcp_port") body)) in'.tcp_port;
  proxy_proto = update (as_bool (get (codes "proxy_proto") body)) in'.proxy_proto;
  dns = update_list (as_array (get (codes "dns") body)) in'.dns;
  routes = update_list (as_array (get (codes "routes") body)) in'.routes;
  camouflage = patch_camouflage (as_object (get (codes "camouflage") body)) in'.camouflage;
}

update-twice {ℓ} : {A : Type ℓ} (o : Option A) (x : A) → update o (update o x) ≡ update o x
unfolding update
update-twice none x = refl
update-twice (some y) x = refl

update_list-twice :
    (o : Option Items) (xs : List Text) → update_list o (update_list o xs) ≡ update_list o xs
unfolding update_list
update_list-twice none x = refl
update_list-twice (some y) x = refl

patch_camouflage-twice :
    (o : Option Fields) (c : Camouflage)
    → patch_camouflage o (patch_camouflage o c) ≡ patch_camouflage o c
unfolding patch_camouflage
patch_camouflage-twice none c = refl
patch_camouflage-twice (some fs) c = simp update-twice

-- A patch that is applied twice does what it does once, and it never changes the name, the listen
-- address, the pools or the way to authenticate.
apply_instance_patch_lem :
    (in' : Instance) (body : Fields)
    → let out = apply_instance_patch in' body in
      (apply_instance_patch out body ≡ out)
      × (out.name ≡ in'.name)
      × (out.listen ≡ in'.listen)
      × (out.pool_cidr ≡ in'.pool_cidr)
      × (out.pool_cidr_v6 ≡ in'.pool_cidr_v6)
      × (out.auth_mode ≡ in'.auth_mode)
unfolding apply_instance_patch
apply_instance_patch_lem in' body =
    (simp (update-twice, update_list-twice, patch_camouflage-twice), refl, refl, refl, refl, refl)
