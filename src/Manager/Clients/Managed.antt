-- ===== src/Manager/Clients/Managed.antt =====
-- The operations on clients of internal/ocserv/manager.go keep the records and the processes in step.
use openconnectd.Manager.Keeps.{moves_rules}
use openconnectd.Base.{Bool, true, false, [], Option, none, some, Text}
use openconnectd.Api.{Instance, ClientPeer, ClientCreateRequest, AuthMode}
use openconnectd.Store.{get_instance, get_client, put_client, delete_client}
use openconnectd.Params.Json.{Fields}
use openconnectd.Manager.{Setting}
use openconnectd.Manager.Keeps.{
  Moves, Moves-forget, Moves-wrapping, Moves-on_store, Moves-pure, Moves-raise, Moves-on_host,
  Moves-skip, Moves-refuse, Moves-guard, Moves-when, Moves-bind,
}
use openconnectd.Manager.Invariant.{put_client-IsManaged, delete_client-IsManaged}
use openconnectd.Manager.Instances.Managed.{Managed, Moves-reload}
use openconnectd.Manager.Clients.{
  issue, issue_if, put_password, first_password, pin_and_put, create_under, create_client_of,
  create_client, revoke, delete_found, delete_client_of, new_password, patch_client_of,
  patch_client, passwords,
}
use openconnectd.Ocpasswd.{delete_user}
use openconnectd.PerUser.{remove_per_user_config}

module _ (m : Setting) where
  Moves-issue_if : (b : Bool) (i cn : Text) → Moves (Managed m) (Managed m) (issue_if m b i cn)
  unfolding issue_if issue
  Moves-issue_if true i cn =
      Moves-bind _ _ (Moves-wrapping _ _ (Moves-on_host _)) λ issued. Moves-pure (λ r s h. h) _
  Moves-issue_if false i cn = Moves-pure (λ r s h. h) _

  Moves-put_password :
      (bin i cn pw : Text) → Moves (Managed m) (Managed m) (put_password m bin i cn pw)
  unfolding put_password
  Moves-put_password bin i cn pw = search moves_rules

  Moves-first_password :
      (i cn : Text) (mode : AuthMode) (pw : Text)
      → Moves (Managed m) (Managed m) (first_password m i cn mode pw)
  unfolding first_password
  Moves-first_password i cn mode pw = search (moves_rules, Moves-put_password)

  Moves-pin_and_put :
      (i : Text) (c : ClientPeer) → Moves (Managed m) (Managed m) (pin_and_put m i c)
  unfolding pin_and_put
  Moves-pin_and_put i c = Moves-bind _ _ (Moves-wrapping _ _ (Moves-on_host _)) λ _.
      Moves-bind _ _
        (Moves-on_store (put_client m.env m.codec i c)
          (put_client-IsManaged m.cfg m.env m.codec i c))
        λ _. Moves-pure (λ r s h. h) _

  Moves-create_under :
      (in' : Instance) (i cn : Text) (req : ClientCreateRequest)
      → Moves (Managed m) (Managed m) (create_under m in' i cn req)
  unfolding create_under
  Moves-create_under in' i cn req = Moves-bind _ _ (Moves-refuse _ _) λ _.
      Moves-bind _ _ (Moves-guard _ _) λ _. Moves-bind _ _ (Moves-issue_if _ i cn) λ cert.
        Moves-bind _ _ (Moves-when _ _ (Moves-first_password i cn _ req.password))
          λ _. Moves-pin_and_put i _

  Moves-create_client_of :
      (i : Text) (req : ClientCreateRequest) (o : Option Instance)
      → Moves (Managed m) (Managed m) (create_client_of m i req o)
  unfolding create_client_of
  Moves-create_client_of i req none = Moves-raise (λ r s h. h) _
  Moves-create_client_of i req (some in') = Moves-create_under in' i _ req

  pub Moves-create_client :
      (i : Text) (req : ClientCreateRequest) → Moves (Managed m) (Managed m) (create_client m i req)
  unfolding create_client
  Moves-create_client i req = record {
    at = λ w p. (Moves-create_client_of i req (get_instance w.store.records i)).at w p;
  }

  Moves-revoke : (i serial : Text) → Moves (Managed m) (Managed m) (revoke m i serial)
  unfolding revoke
  Moves-revoke i serial = search (moves_rules, Moves-reload)

  Moves-delete_found :
      (i cn : Text) (o : Option ClientPeer) → Moves (Managed m) (Managed m) (delete_found m i cn o)
  unfolding delete_found
  Moves-delete_found i cn none = Moves-raise (λ r s h. h) _
  Moves-delete_found i cn (some c) =
      Moves-bind _ _ (Moves-when _ _ (Moves-revoke i c.cert_serial)) λ _.
        Moves-bind _ _
          (Moves-when _ _
            (Moves-forget _ (Moves-on_host (delete_user m.env (passwords m [] i) cn))))
          λ _.
            Moves-bind _ _
              (Moves-forget _ (Moves-on_host (remove_per_user_config m.env m.cfg i cn)))
              λ _.
                Moves-on_store (delete_client m.env m.codec i cn)
                  (delete_client-IsManaged m.cfg m.env m.codec i cn)

  pub Moves-delete_client_of :
      (i cn : Text) → Moves (Managed m) (Managed m) (delete_client_of m i cn)
  unfolding delete_client_of
  Moves-delete_client_of i cn = record {
    at = λ w p. (Moves-delete_found i cn (get_client w.store.records i cn)).at w p;
  }

  Moves-new_password :
      (i cn : Text) (mode : AuthMode) (o : Option Text)
      → Moves (Managed m) (Managed m) (new_password m i cn mode o)
  unfolding new_password
  Moves-new_password i cn mode none = Moves-skip
  Moves-new_password i cn mode (some pw) = Moves-when _ _ (Moves-put_password [] i cn pw)

  Moves-patch_client_of :
      (i cn : Text) (body : Fields) (o : Option ClientPeer)
      → Moves (Managed m) (Managed m) (patch_client_of m i cn body o)
  unfolding patch_client_of
  Moves-patch_client_of i cn body none = Moves-raise (λ r s h. h) _
  Moves-patch_client_of i cn body (some c) =
      search (moves_rules, Moves-new_password, Moves-pin_and_put)

  pub Moves-patch_client :
      (i cn : Text) (body : Fields) → Moves (Managed m) (Managed m) (patch_client m i cn body)
  unfolding patch_client
  Moves-patch_client i cn body = record {
    at = λ w p. (Moves-patch_client_of i cn body (get_client w.store.records i cn)).at w p;
  }
