-- ===== src/HttpApi/Mux.antt =====
-- The routes that Handler of internal/httpapi/server.go registers, and how http.ServeMux finds one: by
-- the segments of the path, and a GET route takes HEAD too. A path that is not clean is redirected. The
-- path stands as it is sent, which url.Parse keeps if its escapes are in order.
use openconnectd.Base.{
  ℕ, Bool, true, false, ◌&&◌, ◌||◌, not, List, [], ◌∷◌, Option, none, some, Text, codes, take, drop,
  suc, same, is_nil, any, if◌then◌else◌, ◌==◌,
}
use openconnectd.Strings.{index_byte}
use openconnectd.HttpApi.Url.{split, path_unescape, query_unescape}

-- The handlers, by the names that the source has for them.
pub data Endpoint : Type 0 where
  to_health to_version : Endpoint
  to_list_instances to_create_instance to_get_instance to_patch_instance to_delete_instance :
      Endpoint
  to_list_clients to_create_client to_patch_client to_delete_client to_client_config : Endpoint
  to_list_sessions to_list_bans to_unban to_disconnect : Endpoint

-- A segment of a pattern, as it is or `{name}`.
pub data Segment : Type 0 where
  lit : Text → Segment
  wild : Text → Segment

-- `guarded`: the handler stands behind auth.
pub record Route : Type 0 where
  pub method : Text
  pub pattern : List Segment
  pub guarded : Bool
  pub endpoint : Endpoint

abbrev on : Text → List Segment → Endpoint → Route
on method pattern endpoint = record {
  method = method;
  pattern = pattern;
  guarded = true;
  endpoint = endpoint;
}

abbrev v1 : Text → List Segment → List Segment
v1 t ps = lit (codes "v1") ∷ lit t ∷ ps

abbrev pub name : Segment
name = wild (codes "name")

abbrev pub cn : Segment
cn = wild (codes "cn")

abbrev clients_of : List Segment → List Segment
clients_of ps = v1 (codes "instances") (name ∷ lit (codes "clients") ∷ ps)

unfoldable pub routes : List Route
routes =
    record {
      method = codes "GET";
      pattern = lit (codes "healthz") ∷ [];
      guarded = false;
      endpoint = to_health;
    }
    ∷ on (codes "GET") (v1 (codes "version") []) to_version
    ∷ on (codes "GET") (v1 (codes "instances") []) to_list_instances
    ∷ on (codes "POST") (v1 (codes "instances") []) to_create_instance
    ∷ on (codes "GET") (v1 (codes "instances") (name ∷ [])) to_get_instance
    ∷ on (codes "PATCH") (v1 (codes "instances") (name ∷ [])) to_patch_instance
    ∷ on (codes "DELETE") (v1 (codes "instances") (name ∷ [])) to_delete_instance
    ∷ on (codes "GET") (clients_of []) to_list_clients
    ∷ on (codes "POST") (clients_of []) to_create_client
    ∷ on (codes "PATCH") (clients_of (cn ∷ [])) to_patch_client
    ∷ on (codes "DELETE") (clients_of (cn ∷ [])) to_delete_client
    ∷ on (codes "GET") (clients_of (cn ∷ lit (codes "client-config") ∷ [])) to_client_config
    ∷ on (codes "GET") (v1 (codes "sessions") []) to_list_sessions
    ∷ on (codes "GET") (v1 (codes "bans") []) to_list_bans
    ∷ on (codes "DELETE") (v1 (codes "bans") (wild (codes "ip") ∷ [])) to_unban
    ∷ on (codes "DELETE") (v1 (codes "instances") (name ∷ lit (codes "sessions") ∷ cn ∷ []))
        to_disconnect
    ∷ []

-- The values of the wildcards, by name.
abbrev pub Values : Type 0
Values = List (Text × Text)

-- r.PathValue
unfoldable pub path_value : Text → Values → Text
path_value k [] = []
path_value k ((j, v) ∷ vs) = if same j k then v else path_value k vs

abbrev or_as_is : Text → Option Text → Text
or_as_is s none = s
or_as_is s (some t) = t

abbrev pub segment_of : Text → Text
segment_of s = or_as_is s (path_unescape s)

-- No wildcard matches an end with a slash.
abbrev pub is_value : Text → Bool
is_value v = not (is_nil v) && not (same v (codes "/"))

abbrev push : Text → Text → Option Values → Option Values
push k v none = none
push k v (some vs) = some ((k, v) ∷ vs)

unfoldable pub match : List Segment → List Text → Option Values
match [] [] = some []
match [] (s ∷ ss) = none
match (p ∷ ps) [] = none
match (lit t ∷ ps) (s ∷ ss) = let rest = match ps ss in if same (segment_of s) t then rest else none
match (wild k ∷ ps) (s ∷ ss) =
    let rest = match ps ss in if is_value (segment_of s) then push k (segment_of s) rest else none

abbrev pub takes : Text → Text → Bool
takes route method = same route method || (same route (codes "GET") && same method (codes "HEAD"))

pub data Target : Type 0 where
  found : Route → Values → Target
  wrong_method : Target
  no_route : Target

-- A route for the path with another method is remembered.
abbrev pub instead : Target → Target
instead no_route = wrong_method
instead wrong_method = wrong_method
instead (found r vs) = found r vs

abbrev pub try_route : Text → Route → Option Values → Target → Target
try_route method r none rest = rest
try_route method r (some vs) rest = if takes r.method method then found r vs else instead rest

-- Two patterns with one method never match one path, so the order of the routes plays no part.
unfoldable pub select : Text → List Text → List Route → Target
unfolding match
select method ss [] = no_route
select method ss (r ∷ rs) = try_route method r (match r.pattern ss) (select method ss rs)

-- strings.Cut at the index of a byte.
abbrev cut : Text → Option ℕ → Text × Text
cut t none = (t, [])
cut t (some i) = (take i t, drop (suc i) t)

-- The path, and the query behind the question mark.
abbrev pub parse_target : Text → Text × Text
parse_target t = cut t (index_byte t b'?')

abbrev pub is_dots : Text → Bool
is_dots s = same s (codes ".") || same s (codes "..")

-- What is behind the first slash: only the last segment may be empty.
abbrev pub are_clean : List Text → Bool
are_clean [] = true
are_clean (s ∷ []) = not (is_dots s)
are_clean (s ∷ t ∷ ss) = not (is_nil s) && not (is_dots s) && are_clean (t ∷ ss)

abbrev pub is_clean_path : List Text → Bool
is_clean_path [] = false
is_clean_path (s ∷ ss) = is_nil s && not (is_nil ss) && are_clean ss

abbrev pub tail : List Text → List Text
tail [] = []
tail (s ∷ ss) = ss

abbrev pub located : Text → List Text → Option Target
located method ss = if is_clean_path ss then some (select method (tail ss) routes) else none

-- `none` is a redirect to the clean path.
unfoldable pub locate : Text → Text → Option Target
unfolding select routes
locate method path = located method (split b'/' path)

abbrev value_if : Bool → Option Text → Option Text
value_if true (some v) = some v
value_if _ _ = none

abbrev names : Text → Option Text → Bool
names k none = false
names k (some j) = same j k

-- One `key=value` of a query, if it is for the key and can be read.
abbrev value_in : Text → Text × Text → Option Text
value_in k (j, v) = value_if (names k (query_unescape j)) (query_unescape v)

unfoldable pub pair_value : Text → Text → Option Text
pair_value k s = if any (λ c. c == b';') s then none else value_in k (cut s (index_byte s b'='))

abbrev or_rest : Option Text → Text → Text
or_rest none rest = rest
or_rest (some v) rest = v

first_value : Text → List Text → Text
first_value k [] = []
first_value k (s ∷ ss) = or_rest (pair_value k s) (first_value k ss)

-- r.URL.Query().Get(k)
unfoldable pub query_get : Text → Text → Text
unfolding first_value
query_get k query = first_value k (split b'&' query)
