-- ===== src/HttpApi/Safety.antt =====
-- What a request to internal/httpapi/server.go cannot do.
use openconnectd.Base.{
  ℕ, zero, suc, ◌≡◌, refl, true, false, [], ◌∷◌, Option, none, some, Text, same_iff, drop, length,
  ltb, arith, Bool-cases, ◌⊎◌, inl, inr, ◌↔◌,
}
use openconnectd.Manager.{World}
use openconnectd.HttpApi.{Request, Response, Server, healthy, unauthorized, auth, authorized}
use openconnectd.HttpApi.Mux.{
  Route, Target, found, wrong_method, no_route, Values, locate, parse_target,
}
use openconnectd.HttpApi.Handlers.{perform}
use openconnectd.HttpApi.Serve.{not_found_page, method_page, redirect, handle, dispatch, serve}
use openconnectd.HttpApi.Routing.{
  Finds, Fits, locate-Finds, guarded_or_health, routes-guarded_or_health, eq-to_health,
}

drop-nil : (n : ℕ) (s : Text) → ltb n (length s) ≡ false → drop n s ≡ []
drop-nil zero [] h = refl
drop-nil zero (c ∷ s) h = ground arith
drop-nil (suc n) [] h = refl
drop-nil (suc n) (c ∷ s) h = drop-nil n s (ground arith)

-- The header is longer than "Bearer ", and what is behind as many bytes is the token. What those bytes
-- are is not looked at. Without a token every header will do.
pub authorized_iff :
    (token header : Text)
    → (authorized token header ≡ true) ↔ ((token ≡ []) ⊎ (drop 7 header ≡ token))
unfolding authorized
authorized_iff [] header = (λ _. inl refl, λ _. refl)
authorized_iff (t ∷ ts) header = elim (Bool-cases (ltb 7 (length header))) [
  | inl e ↦ rw e (ground (arith, same_iff (drop 7 header) (t ∷ ts)))
  | inr e ↦ rw e (ground (arith, drop-nil 7 header))
]

-- Answers that say nothing of the instances.
pub data IsPublic : Response → Type 0 where
  ok_page : IsPublic healthy
  refused : IsPublic unauthorized
  not_found : IsPublic not_found_page
  not_allowed : IsPublic method_page
  moved : IsPublic redirect

module _ (s : Server) (req : Request)
    (closed : authorized s.setting.cfg.token req.authorization ≡ false) where
  handle-closed :
      (r : Route) (vs : Values) (query : Text) (w : World)
      → guarded_or_health r ≡ true
      → IsPublic (handle s r vs query req w).0 × ((handle s r vs query req w).1 ≡ w)
  unfolding auth perform
  handle-closed r vs query w h = elim (Bool-cases r.guarded) [
    | inl e ↦ rw e (rw (closed, auth) (refused, refl))
    | inr e ↦ rw (e, eq-to_health r.endpoint (ground arith)) (ok_page, refl)
  ]

  dispatch-closed :
      (t : Option Target) (query : Text) (w : World)
      → Finds (Fits guarded_or_health req.method) t
      → IsPublic (dispatch s t query req w).0 × ((dispatch s t query req w).1 ≡ w)
  unfolding dispatch
  dispatch-closed none query w h = (moved, refl)
  dispatch-closed (some no_route) query w h = (not_found, refl)
  dispatch-closed (some wrong_method) query w h = (not_allowed, refl)
  dispatch-closed (some (found r vs)) query w h = handle-closed r vs query w h.0

  -- Without the token no request changes anything, nor does it learn more than that the daemon runs.
  pub serve-closed : (w : World) → IsPublic (serve s req w).0 × ((serve s req w).1 ≡ w)
  unfolding serve
  serve-closed w =
      dispatch-closed (locate req.method (parse_target req.target).0) (parse_target req.target).1 w
        (locate-Finds guarded_or_health req.method (parse_target req.target).0
          routes-guarded_or_health)
