-- ===== src/HttpApi/Reads.antt =====
-- GET requests to internal/httpapi/server.go change no record and no process.
use openconnectd.Base.{
  ◌≡◌, refl, true, Option, none, some, Text, codes, same_iff, arith, Bool-cases, inl, inr, is_nil,
}
use openconnectd.Api.{Instance, ClientPeer}
use openconnectd.Store.{get_instance, get_client, list_clients}
use openconnectd.Manager.{Setting, World}
use openconnectd.Manager.Keeps.{
  Cond, Moves, Moves-pure, Moves-raise, Moves-bind, Moves-guard, Moves-gets, Moves-if,
  Moves-on_host,
}
use openconnectd.Manager.Clients.{list_clients_of, profile_body, client_config_of, client_config}
use openconnectd.Manager.Live.Reads.{Moves-sessions, Moves-bans}
use openconnectd.HttpApi.{Request, Server}
use openconnectd.HttpApi.Mux.{
  Endpoint, to_health, to_version, to_list_instances, to_get_instance, to_list_clients,
  to_client_config, to_list_sessions, to_list_bans, Route, Target, found, wrong_method, no_route,
  Values, locate, parse_target,
}
use openconnectd.HttpApi.Handlers.{perform, version}
use openconnectd.HttpApi.Serve.{handle, dispatch, serve}
use openconnectd.HttpApi.Routing.{
  Finds, Fits, locate-Finds, is_read, is_safe, reads_if_get, routes-reads_if_get,
}
use openconnectd.HttpApi.Steps.{Steps, Steps-auth, Steps-answer}

module _ (m : Setting) (P : Cond) where
  Moves-list_clients_of : (i : Text) → Moves P P (list_clients_of m i)
  unfolding list_clients_of
  Moves-list_clients_of i =
      Moves-bind _ _ (Moves-guard _ _)
        λ _. Moves-gets (λ r s p. p) (λ w. list_clients w.store.records i)

  Moves-profile_body : (i cn : Text) (c : ClientPeer) → Moves P P (profile_body m i cn c)
  unfolding profile_body
  Moves-profile_body i cn c =
      Moves-if (is_nil c.cert_serial) _ _ (Moves-pure (λ r s p. p) _) (Moves-on_host _)

  Moves-client_config_of :
      (i cn : Text) (o : Option Instance) (c : Option ClientPeer)
      → Moves P P (client_config_of m i cn o c)
  unfolding client_config_of
  Moves-client_config_of i cn none c = Moves-raise (λ r s p. p) _
  Moves-client_config_of i cn (some in') none = Moves-raise (λ r s p. p) _
  Moves-client_config_of i cn (some in') (some c) =
      Moves-bind _ _ (Moves-profile_body i cn c) λ body. Moves-pure (λ r s p. p) _

  Moves-client_config : (i cn : Text) → Moves P P (client_config m i cn)
  unfolding client_config
  Moves-client_config i cn = record {
    at = λ w.
        (Moves-client_config_of i cn (get_instance w.store.records i)
            (get_client w.store.records i cn)).at
          w;
  }

module _ (s : Server) (P : Cond) where
  pub Steps-read :
      (e : Endpoint) (vs : Values) (query : Text) (req : Request)
      → is_read e ≡ true
      → Steps P (perform s e vs query req)
  unfolding perform version
  Steps-read to_health vs query req h = record { at = λ w p. p }
  Steps-read to_version vs query req h = record { at = λ w p. p }
  Steps-read to_list_instances vs query req h = record { at = λ w p. p }
  Steps-read to_get_instance vs query req h = record { at = λ w p. p }
  Steps-read to_list_clients vs query req h =
      Steps-answer s _ _ _ (Moves-list_clients_of s.setting P _)
  Steps-read to_client_config vs query req h =
      Steps-answer s _ _ _ (Moves-client_config s.setting P _ _)
  Steps-read to_list_sessions vs query req h = Steps-answer s _ _ _ (Moves-sessions s.setting P _)
  Steps-read to_list_bans vs query req h = Steps-answer s _ _ _ (Moves-bans s.setting P)
  Steps-read _ vs query req h = cc

  Steps-handle :
      (r : Route) (vs : Values) (query : Text) (req : Request)
      → is_read r.endpoint ≡ true
      → Steps P (handle s r vs query req)
  Steps-handle r vs query req h = elim (Bool-cases r.guarded) [
    | inl e ↦ rw e (Steps-auth _ _ _ (Steps-read r.endpoint vs query req h))
    | inr e ↦ rw e (Steps-read r.endpoint vs query req h)
  ]

  Steps-dispatch :
      (t : Option Target) (query : Text) (req : Request)
      → Finds (λ r. is_read r.endpoint ≡ true) t
      → Steps P (dispatch s t query req)
  unfolding dispatch
  Steps-dispatch none query req h = record { at = λ w p. p }
  Steps-dispatch (some no_route) query req h = record { at = λ w p. p }
  Steps-dispatch (some wrong_method) query req h = record { at = λ w p. p }
  Steps-dispatch (some (found r vs)) query req h = record {
    at = (Steps-handle r vs query req h).at;
  }

Fits-is_safe :
    (method : Text) (r : Route)
    → is_safe method ≡ true
    → Fits reads_if_get method r
    → is_read r.endpoint ≡ true
Fits-is_safe method r m h =
    ground (arith, same_iff r.method method, same_iff method (codes "GET"), h.0, h.1)

Finds-is_safe :
    (method : Text) (t : Option Target)
    → is_safe method ≡ true
    → Finds (Fits reads_if_get method) t
    → Finds (λ r. is_read r.endpoint ≡ true) t
Finds-is_safe method none m h = tt
Finds-is_safe method (some no_route) m h = tt
Finds-is_safe method (some wrong_method) m h = tt
Finds-is_safe method (some (found r vs)) m h = Fits-is_safe method r m h

-- A GET or a HEAD request changes no record, and starts, stops and signals no process.
pub serve-is_safe :
    (s : Server) (req : Request) (w : World)
    → is_safe req.method ≡ true
    → ((serve s req w).1.store.records ≡ w.store.records) × ((serve s req w).1.sup ≡ w.sup)
unfolding serve
serve-is_safe s req w m =
    let path = (parse_target req.target).0 in
    let here : Cond = λ r p. (r ≡ w.store.records) × (p ≡ w.sup) in
    (Steps-dispatch s here (locate req.method path) (parse_target req.target).1 req (
        Finds-is_safe req.method (locate req.method path) m
          (locate-Finds reads_if_get req.method path routes-reads_if_get))).at
      w (refl, refl)
