-- ===== src/ApiClient/Through.antt =====
-- The client of pkg/api/client.go on the daemon of internal/httpapi/server.go.
use openconnectd.Base.{
  ◌≡◌, refl, ◌∙◌, true, [], ◌∷◌, ◌++◌, Option, none, some, Text, codes, is_nil, same, same_refl,
  drop, length, if◌then◌else◌, arith, Bool-cases, inl, inr,
}
use openconnectd.Errors.{Result, ok, err, is_ok}
use openconnectd.Exec.{Exec, continue}
use openconnectd.Status.{status_for-is_error}
use openconnectd.Manager.{World}
use openconnectd.Manager.Instances
use openconnectd.Manager.Clients
use openconnectd.Manager.Live
use openconnectd.HttpApi.{
  Request, Response, Server, Value, Content, nothing, plain, json, auth, authorized, answer,
  respond, no_content,
}
use openconnectd.HttpApi.Mux.{
  Route, Endpoint, Values, Target, found, wrong_method, no_route, locate, parse_target, path_value,
}
use openconnectd.HttpApi.Handlers.{perform}
use openconnectd.HttpApi.Serve.{handle, dispatch, serve}
use openconnectd.ApiClient.{Sent, Reply, Transport, Wire, Client, send, round_trip, accepted}
use openconnectd.ApiClient.Calls.{delete_instance, delete_client, disconnect}
use openconnectd.ApiClient.Names.{IsName}
use openconnectd.ApiClient.Targets.{aim}
use openconnectd.ApiClient.Paths.{arrives, arrives_lem}

abbrev or_unset : Option Text → Text
or_unset none = []
or_unset (some t) = t

-- What the daemon sees of a request to its base URL.
unfoldable pub received : Text → Sent → Request
received base r = record {
  method = r.method;
  target = drop (length base) r.url;
  authorization = or_unset r.authorization;
  body = or_unset r.body;
}

abbrev written : (Value → Text) → Content → Text
written encode nothing = []
written encode (plain t) = t
written encode (json v) = encode v

-- The daemon as the client's transport, over a network that loses nothing.
unfoldable pub through : Server → (Value → Text) → Text → Transport World
through s encode base r w =
    let (response, w') = serve s (received base r) w in
    (ok (record { status = response.status; data' = written encode response.content }), w')

drop-append : (a b : Text) → drop (length a) (a ++ b) ≡ b
drop-append [] b = refl
drop-append (c ∷ a) b = drop-append a b

-- The header that the client sets opens the daemon that has its token.
authorized-bearer :
    (token : Text)
    → authorized token (or_unset (if is_nil token then none else some (codes "Bearer " ++ token)))
      ≡ true
unfolding authorized
authorized-bearer [] = refl
authorized-bearer (c ∷ token) = ground (arith, same_refl (c ∷ token))

module _ (s : Server) (req : Request)
    (known : authorized s.setting.cfg.token req.authorization ≡ true) where
  handle-known :
      (r : Route) (vs : Values) (query : Text) (w : World)
      → handle s r vs query req w ≡ perform s r.endpoint vs query req w
  unfolding auth
  handle-known r vs query w = elim (Bool-cases r.guarded) [
    | inl e ↦ rw e (rw (known, auth) refl)
    | inr e ↦ rw e refl
  ]

  dispatch-aim :
      (t : Option Target) (e : Endpoint) (vs : Values) (query : Text) (w : World)
      → aim t ≡ some (e, vs)
      → dispatch s t query req w ≡ perform s e vs query req w
  unfolding dispatch
  dispatch-aim none e vs query w h = cc
  dispatch-aim (some no_route) e vs query w h = cc
  dispatch-aim (some wrong_method) e vs query w h = cc
  dispatch-aim (some (found r us)) e vs query w h =
      let same_endpoint : r.endpoint ≡ e = cc in
      let same_values : us ≡ vs = cc in
      handle-known r us query w ∙ rw (same_endpoint, same_values) refl

  -- A request that is let in is handled by the handler that it reaches.
  serve-arrives :
      (e : Endpoint) (vs : Values) (w : World)
      → arrives req.method req.target ≡ some (e, vs)
      → serve s req w ≡ perform s e vs (parse_target req.target).1 req w
  unfolding serve
  serve-arrives e vs w h = dispatch-aim (locate req.method (parse_target req.target).0) e vs _ w h

abbrev settled : Result Reply → Result (Unit {0})
settled (ok r) = ok tt
settled (err e) = err e

continue-settled :
    (r : Result Reply) (w : World) → continue r (λ _ v. (ok tt, v)) w ≡ (settled r, w)
continue-settled (ok r) w = refl
continue-settled (err e) w = refl

-- Two calls leave the same state, and both succeed or both fail.
abbrev pub Agrees : Result (Unit {0}) × World → Result (Unit {0}) × World → Type 0
Agrees (r, w) (q, v) = (w ≡ v) × (is_ok r ≡ is_ok q)

module _ (s : Server) (encode : Value → Text) (wire : Wire) (c : Client)
    (same_token : c.token ≡ s.setting.cfg.token) where
  abbrev daemon : Transport World
  daemon = through s encode c.base_url

  -- The request that reaches the daemon.
  asked : Text → Text → Request
  asked method path = record {
    method = method;
    target = path;
    authorization = or_unset (if is_nil c.token then none else some (codes "Bearer " ++ c.token));
    body = [];
  }

  abbrev reply_of : Response → Reply
  reply_of r = record { status = r.status; data' = written encode r.content }

  send-serve :
      (method path : Text) (w : World)
      → send wire daemon c method path none w ≡ (
        settled (accepted wire (reply_of (serve s (asked method path) w).0)),
        (serve s (asked method path) w).1,
      )
  unfolding send round_trip through received asked
  send-serve method path w = rw (drop-append c.base_url path) (continue-settled _ _)

  is_ok-accepted :
      (code : Text) (r : Result (Unit {0}))
      → is_ok (settled (accepted wire (reply_of (respond s code (λ _. no_content) r)))) ≡ is_ok r
  unfolding accepted
  is_ok-accepted code (ok u) = refl
  is_ok-accepted code (err e) = rw (status_for-is_error s.setting.quote s.canceled e) refl

  send-Agrees :
      (method path : Text) (e : Endpoint) (vs : Values) (code : Text) (m : Exec World (Unit {0}))
      (w : World)
      → arrives method path ≡ some (e, vs)
      → perform s e vs (parse_target path).1 (asked method path) w
        ≡ answer s code (λ _. no_content) m w
      → Agrees (send wire daemon c method path none w) (m w)
  unfolding answer asked
  send-Agrees method path e vs code m w there does =
      let open' : authorized s.setting.cfg.token (asked method path).authorization ≡ true =
        rw (← same_token) (authorized-bearer c.token) in
      let whole = send-serve method path w in
      let act = serve-arrives s (asked method path) open' e vs w there ∙ does in
      rw (whole, act) (refl, is_ok-accepted code (m w).0)

  -- On a daemon that has the client's token: each of the three calls leaves the state that the manager's
  -- operation leaves at the names it was given, and it succeeds exactly if the operation does. A name
  -- is not empty, is not "/", "." or "..", and is in bytes.
  pub calls_lem :
      (n k : Text) (w : World)
      → IsName n
      → IsName k
      → Agrees (delete_instance wire daemon c n w) (Instances.delete s.setting n w)
        × Agrees (delete_client wire daemon c n k w) (Clients.delete_client_of s.setting n k w)
        × Agrees (disconnect wire daemon c n k w) (Live.disconnect s.setting n k w)
  unfolding delete_instance delete_client disconnect perform path_value same
  calls_lem n k w h g =
      let (_, deletes, _, _, _, deletes_one, _, disconnects) = arrives_lem n k h g in
      (
        send-Agrees _ _ _ _ (codes "delete_instance") (Instances.delete s.setting n) w deletes refl,
        send-Agrees _ _ _ _ (codes "delete_client") (Clients.delete_client_of s.setting n k) w
            deletes_one refl,
        send-Agrees _ _ _ _ (codes "disconnect") (Live.disconnect s.setting n k) w disconnects refl,
      )
