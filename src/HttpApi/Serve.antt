-- ===== src/HttpApi/Serve.antt =====
-- Handler of internal/httpapi/server.go: a request finds its route, and its handler behind auth.
use openconnectd.Base.{Option, none, some, Text, codes, if◌then◌else◌}
use openconnectd.HttpApi.{Request, Response, Server, Answer, plain, nothing, auth}
use openconnectd.HttpApi.Mux.{
  Route, Target, found, wrong_method, no_route, Values, parse_target, locate,
}
use openconnectd.HttpApi.Handlers.{perform}

-- What http.ServeMux answers by itself.
abbrev pub not_found_page : Response
not_found_page = record { status = 404; content = plain (codes "404 page not found\n") }

abbrev pub method_page : Response
method_page = record { status = 405; content = plain (codes "Method Not Allowed\n") }

-- The body of a redirect is left out.
abbrev pub redirect : Response
redirect = record { status = 301; content = nothing }

module _ (s : Server) where
  abbrev pub handle : Route → Values → Text → Request → Answer
  handle r vs query req =
      if r.guarded
      then auth s.setting.cfg.token req.authorization (perform s r.endpoint vs query req)
      else perform s r.endpoint vs query req

  unfoldable pub dispatch : Option Target → Text → Request → Answer
  dispatch none query req w = (redirect, w)
  dispatch (some no_route) query req w = (not_found_page, w)
  dispatch (some wrong_method) query req w = (method_page, w)
  dispatch (some (found r vs)) query req w = handle r vs query req w

  unfoldable pub serve : Request → Answer
  serve req w =
      let (path, query) = parse_target req.target in dispatch (locate req.method path) query req w
