-- ===== src/Manager/Clients/Filed.antt =====
-- The client that CreateClient and PatchClient of internal/ocserv/manager.go return is the one that they
-- file.
use openconnectd.Base.{◌≡◌, refl, ap, ◌∙◌, Bool, true, false, Option, none, some, Text, is_nil}
use openconnectd.Strings.{trim_space}
use openconnectd.Errors.{
  err, Returns, common_name_required, client_exists, client_not_found, instance_not_found,
}
use openconnectd.Api.{Instance, ClientPeer, ClientCreateRequest, AuthMode}
use openconnectd.Store.{Records, get_instance, get_client}
use openconnectd.Store.View.{view, meaning, puts_client, mutate, view-mutate}
use openconnectd.Params.{or_auth}
use openconnectd.Params.Json.{Fields}
use openconnectd.Manager.{Setting, World, on_store, guard}
use openconnectd.Manager.Keeps.{
  Cond, Moves, Moves-bind, Moves-when, Moves-wrapping, Moves-on_host, Moves-on_store, Moves-guard,
  Moves-refuse, Moves-skip, Moves-pure,
}
use openconnectd.Manager.Makes.{Makes, Makes-pure, Makes-bind}
use openconnectd.Manager.Clients.{
  Cert, new_client, patched, has_client, issue, issue_if, put_password, first_password, pin_and_put,
  create_under, create_client_of, create_client, new_password, patch_client_of, patch_client,
}

abbrev Holds : Records → Cond
Holds r0 = λ r s. r ≡ r0

-- The client is as `K` says, and filed: nothing else has changed in the records.
abbrev Filed : Text → Records → (ClientPeer → Type 0) → ClientPeer → Cond
Filed i r0 K = λ c r s. K c × (view r ≡ meaning (puts_client i c) (view r0))

-- What the body of the request says of the new client.
abbrev pub IsNew : Text → AuthMode → ClientCreateRequest → ClientPeer → Type 0
IsNew i mode req c =
    (c.common_name ≡ trim_space req.common_name)
    × (c.instance_name ≡ i)
    × (c.auth_mode ≡ or_auth req.auth_mode mode)
    × (c.static_ip ≡ req.static_ip)
    × (c.enabled ≡ true)
    × (c.suspended ≡ false)

new_client-IsNew :
    (i : Text) (mode : AuthMode) (req : ClientCreateRequest) (cert : Cert)
    → IsNew i mode req
        (new_client i (trim_space req.common_name) (or_auth req.auth_mode mode) req cert)
unfolding new_client
new_client-IsNew i mode req cert = (refl, refl, refl, refl, refl, refl)

module _ (m : Setting) (i : Text) (r0 : Records) where
  Moves-put_client :
      (c : ClientPeer)
      → Moves
          (Holds r0)
          (λ r s. view r ≡ meaning (puts_client i c) (view r0))
          (on_store (mutate m.env m.codec (puts_client i c)))
  Moves-put_client c = Moves-on_store _ (λ s p e.
      view-mutate m.env m.codec (puts_client i c) s
      ∙ ap (λ r. meaning (puts_client i c) (view r)) e)

  Makes-pin_and_put :
      (K : ClientPeer → Type 0) (c : ClientPeer)
      → K c
      → Makes (Holds r0) (Filed i r0 K) (pin_and_put m i c)
  unfolding pin_and_put mutate
  Makes-pin_and_put K c k =
      Makes-bind _ _ (Moves-wrapping _ _ (Moves-on_host _))
        λ _. Makes-bind _ _ (Moves-put_client c) λ _. Makes-pure c (λ r s e. (k, e))

  Moves-issue_if : (b : Bool) (cn : Text) → Moves (Holds r0) (Holds r0) (issue_if m b i cn)
  unfolding issue_if issue
  Moves-issue_if true cn =
      Moves-bind _ _ (Moves-wrapping _ _ (Moves-on_host _)) λ issued. Moves-pure (λ r s e. e) _
  Moves-issue_if false cn = Moves-pure (λ r s e. e) _

  Moves-put_password :
      (bin cn password : Text) → Moves (Holds r0) (Holds r0) (put_password m bin i cn password)
  unfolding put_password
  Moves-put_password bin cn password = Moves-wrapping _ _ (Moves-on_host _)

  Makes-create_under :
      (in' : Instance) (req : ClientCreateRequest)
      → Makes
          (Holds r0)
          (Filed i r0 (IsNew i in'.auth_mode req))
          (create_under m in' i (trim_space req.common_name) req)
  unfolding create_under first_password
  Makes-create_under in' req = Makes-bind _ _ (Moves-refuse _ _) λ _.
      Makes-bind _ _ (Moves-guard _ _) λ _. Makes-bind _ _ (Moves-issue_if _ _) λ cert.
        Makes-bind _ _
          (Moves-when _ _ (Moves-bind _ _ (Moves-refuse _ _) λ _. Moves-put_password _ _ _))
          λ _. Makes-pin_and_put _ _ (new_client-IsNew i in'.auth_mode req cert)

  Moves-new_password :
      (cn : Text) (mode : AuthMode) (o : Option Text)
      → Moves (Holds r0) (Holds r0) (new_password m i cn mode o)
  unfolding new_password
  Moves-new_password cn mode none = Moves-skip
  Moves-new_password cn mode (some pw) = Moves-when _ _ (Moves-put_password _ _ _)

  Makes-patch_client_of :
      (cn : Text) (body : Fields) (c : ClientPeer)
      → Makes
          (Holds r0)
          (Filed i r0 (λ c'. c' ≡ patched body c))
          (patch_client_of m i cn body (some c))
  unfolding patch_client_of
  Makes-patch_client_of cn body c =
      Makes-bind _ _ (Moves-new_password _ _ _) λ _. Makes-pin_and_put _ _ refl

module _ (m : Setting) (i : Text) where
  -- CreateClient refuses an instance that has no record, an empty common name and one that is taken,
  -- touching nothing. If it succeeds, the client that it returns is as the request says, and the records
  -- are those from before with this client.
  pub create_client_lem :
      (req : ClientCreateRequest) (w : World)
      → let cn = trim_space req.common_name in
        let r0 = w.store.records in
        (get_instance r0 i ≡ none → create_client m i req w ≡ (err (instance_not_found i), w))
        × ((in' : Instance)
            → get_instance r0 i ≡ some in'
            → (is_nil cn ≡ true → create_client m i req w ≡ (err common_name_required, w))
              × (is_nil cn ≡ false
                  → has_client i cn w ≡ true
                  → create_client m i req w ≡ (err (client_exists cn), w))
              × Returns
                  (λ c.
                    IsNew i in'.auth_mode req c
                    × (view (create_client m i req w).1.store.records
                        ≡ meaning (puts_client i c) (view r0)))
                  (create_client m i req w).0)
  unfolding create_client create_client_of create_under guard
  create_client_lem req w = (
    λ none'. rw (none', create_client) refl,
    λ in' found. (
      λ blank. rw (found, blank, create_client) refl,
      λ named taken. rw (found, named, taken, create_client) refl,
      rw (found, create_client) ((Makes-create_under m i w.store.records in' req).at w refl),
    ),
  )

  -- PatchClient refuses a client that has no record, touching nothing. If it succeeds, it returns the
  -- client as the body changes it, and the records are those from before with this client.
  pub patch_client_lem :
      (cn : Text) (body : Fields) (w : World)
      → let r0 = w.store.records in
        (get_client r0 i cn ≡ none → patch_client m i cn body w ≡ (err (client_not_found cn), w))
        × ((c : ClientPeer)
            → get_client r0 i cn ≡ some c
            → Returns
                (λ c'.
                  (c' ≡ patched body c)
                  × (view (patch_client m i cn body w).1.store.records
                      ≡ meaning (puts_client i c') (view r0)))
                (patch_client m i cn body w).0)
  unfolding patch_client patch_client_of
  patch_client_lem cn body w = (
    λ none'. rw (none', patch_client) refl,
    λ c found.
        rw (found, patch_client) ((Makes-patch_client_of m i w.store.records cn body c).at w refl),
  )
