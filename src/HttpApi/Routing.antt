-- ===== src/HttpApi/Routing.antt =====
-- What is known of the route that http.ServeMux finds for a request of internal/httpapi/server.go.
use openconnectd.Base.{
  ◌≡◌, refl, Bool, true, false, ◌||◌, not, List, [], ◌∷◌, Option, none, some, Text, codes, same,
  all, arith, Bool-cases, inl, inr,
}
use openconnectd.HttpApi.Mux.{
  Route, Target, found, wrong_method, no_route, Values, takes, instead, try_route, match, select,
  routes, locate, tail, is_clean_path, Endpoint, to_health, to_version, to_list_instances,
  to_get_instance, to_list_clients, to_client_config, to_list_sessions, to_list_bans,
}
use openconnectd.HttpApi.Url.{split}

-- The route that is found, if one is.
abbrev pub Finds : (Route → Type 0) → Option Target → Type 0
Finds P none = Unit
Finds P (some no_route) = Unit
Finds P (some wrong_method) = Unit
Finds P (some (found r vs)) = P r

-- It is one of those, and takes the method.
abbrev pub Fits : (Route → Bool) → Text → Route → Type 0
Fits p method r = (p r ≡ true) × (takes r.method method ≡ true)

instead-Finds : (P : Route → Type 0) (t : Target) → Finds P (some t) → Finds P (some (instead t))
instead-Finds P no_route h = tt
instead-Finds P wrong_method h = tt
instead-Finds P (found r vs) h = h

try_route-Finds :
    (p : Route → Bool) (method : Text) (r : Route) (o : Option Values) (rest : Target)
    → p r ≡ true
    → Finds (Fits p method) (some rest)
    → Finds (Fits p method) (some (try_route method r o rest))
try_route-Finds p method r none rest h hr = hr
try_route-Finds p method r (some vs) rest h hr = elim (Bool-cases (takes r.method method)) [
  | inl e ↦ rw e (h, e)
  | inr e ↦ rw e (instead-Finds (Fits p method) rest hr)
]

select-Finds :
    (p : Route → Bool) (method : Text) (ss : List Text) (rs : List Route)
    → all p rs ≡ true
    → Finds (Fits p method) (some (select method ss rs))
unfolding select
select-Finds p method ss [] h = tt
select-Finds p method ss (r ∷ rs) h =
    try_route-Finds p method r (match r.pattern ss) (select method ss rs) (ground arith)
      (select-Finds p method ss rs (ground arith))

-- Whatever holds of each route holds of the one that is found.
pub locate-Finds :
    (p : Route → Bool) (method path : Text)
    → all p routes ≡ true
    → Finds (Fits p method) (locate method path)
unfolding locate
locate-Finds p method path h = elim (Bool-cases (is_clean_path (split b'/' path))) [
  | inl e ↦ rw e (select-Finds p method (tail (split b'/' path)) routes h)
  | inr e ↦ rw e tt
]

-- The handlers that only read.
abbrev pub is_read : Endpoint → Bool
is_read to_health = true
is_read to_version = true
is_read to_list_instances = true
is_read to_get_instance = true
is_read to_list_clients = true
is_read to_client_config = true
is_read to_list_sessions = true
is_read to_list_bans = true
is_read _ = false

abbrev pub is_safe : Text → Bool
is_safe method = same method (codes "GET") || same method (codes "HEAD")

abbrev pub reads_if_get : Route → Bool
reads_if_get r = not (is_safe r.method) || is_read r.endpoint

abbrev pub is_health : Endpoint → Bool
is_health to_health = true
is_health _ = false

abbrev pub guarded_or_health : Route → Bool
guarded_or_health r = r.guarded || is_health r.endpoint

pub routes-reads_if_get : all reads_if_get routes ≡ true
unfolding routes same
routes-reads_if_get = refl

pub routes-guarded_or_health : all guarded_or_health routes ≡ true
unfolding routes
routes-guarded_or_health = refl

pub eq-to_health : (e : Endpoint) → is_health e ≡ true → e ≡ to_health
eq-to_health to_health h = refl
eq-to_health _ h = cc
