-- ===== src/HttpApi/Managed.antt =====
-- Whatever is asked of internal/httpapi/server.go, the records and the processes stay in step.
use openconnectd.Base.{false, Option, none, some, Text, Bool-cases, inl, inr, ◌≡◌}
use openconnectd.Manager.{World}
use openconnectd.Manager.Keeps.{Cond}
use openconnectd.Manager.Invariant.{IsManaged}
use openconnectd.Manager.Instances.Managed.{
  Managed, Moves-create_instance, Moves-delete, Moves-patch_instance,
}
use openconnectd.Manager.Clients.Managed.{
  Moves-create_client, Moves-delete_client_of, Moves-patch_client,
}
use openconnectd.Manager.Live.Reads.{Moves-unban, Moves-disconnect}
use openconnectd.HttpApi.{Request, Server}
use openconnectd.HttpApi.Mux.{
  Endpoint, to_create_instance, to_patch_instance, to_delete_instance, to_create_client,
  to_patch_client, to_delete_client, to_unban, to_disconnect, Route, Target, found, wrong_method,
  no_route, Values, locate, parse_target,
}
use openconnectd.HttpApi.Handlers.{perform}
use openconnectd.HttpApi.Serve.{handle, dispatch, serve}
use openconnectd.HttpApi.Routing.{is_read}
use openconnectd.HttpApi.Steps.{Steps, Steps-auth, Steps-answer, Steps-decode}
use openconnectd.HttpApi.Reads.{Steps-read}

module _ (s : Server) where
  abbrev Kept : Cond
  Kept = Managed s.setting

  Steps-write :
      (e : Endpoint) (vs : Values) (query : Text) (req : Request)
      → is_read e ≡ false
      → Steps Kept (perform s e vs query req)
  unfolding perform
  Steps-write to_create_instance vs query req h =
      Steps-decode s _ _ λ asked. Steps-answer s _ _ _ (Moves-create_instance s.setting asked)
  Steps-write to_patch_instance vs query req h =
      Steps-decode s _ _ λ body. Steps-answer s _ _ _ (Moves-patch_instance s.setting _ body)
  Steps-write to_delete_instance vs query req h = Steps-answer s _ _ _ (Moves-delete s.setting _)
  Steps-write to_create_client vs query req h =
      Steps-decode s _ _ λ asked. Steps-answer s _ _ _ (Moves-create_client s.setting _ asked)
  Steps-write to_patch_client vs query req h =
      Steps-decode s _ _ λ body. Steps-answer s _ _ _ (Moves-patch_client s.setting _ _ body)
  Steps-write to_delete_client vs query req h =
      Steps-answer s _ _ _ (Moves-delete_client_of s.setting _ _)
  Steps-write to_unban vs query req h = Steps-answer s _ _ _ (Moves-unban s.setting Kept _)
  Steps-write to_disconnect vs query req h =
      Steps-answer s _ _ _ (Moves-disconnect s.setting Kept _ _)
  Steps-write _ vs query req h = cc

  Steps-perform :
      (e : Endpoint) (vs : Values) (query : Text) (req : Request)
      → Steps Kept (perform s e vs query req)
  Steps-perform e vs query req = elim (Bool-cases (is_read e)) [
    | inl h ↦ Steps-read s Kept e vs query req h
    | inr h ↦ Steps-write e vs query req h
  ]

  Steps-handle :
      (r : Route) (vs : Values) (query : Text) (req : Request)
      → Steps Kept (handle s r vs query req)
  Steps-handle r vs query req = elim (Bool-cases r.guarded) [
    | inl e ↦ rw e (Steps-auth _ _ _ (Steps-perform r.endpoint vs query req))
    | inr e ↦ rw e (Steps-perform r.endpoint vs query req)
  ]

  Steps-dispatch :
      (t : Option Target) (query : Text) (req : Request) → Steps Kept (dispatch s t query req)
  unfolding dispatch
  Steps-dispatch none query req = record { at = λ w p. p }
  Steps-dispatch (some no_route) query req = record { at = λ w p. p }
  Steps-dispatch (some wrong_method) query req = record { at = λ w p. p }
  Steps-dispatch (some (found r vs)) query req = record { at = (Steps-handle r vs query req).at }

  -- No request, whatever it asks for and whatever call fails in it, breaks what the manager keeps true
  -- of its records and its processes together.
  pub serve-IsManaged :
      (req : Request) (w : World)
      → IsManaged s.setting.cfg w.store.records w.sup
      → IsManaged s.setting.cfg (serve s req w).1.store.records (serve s req w).1.sup
  unfolding serve
  serve-IsManaged req w h =
      (Steps-dispatch (locate req.method (parse_target req.target).0) (parse_target req.target).1
          req).at
        w h
