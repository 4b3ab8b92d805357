-- ===== src/ApiClient.antt =====
-- pkg/api/client.go: the client of the daemon's API. The JSON of the wire types and the HTTP transport
-- are parameters.
pub mod Calls
pub mod Names
pub mod Targets
pub mod Pieces
pub mod Paths
pub mod Query
pub mod Through
use openconnectd.Base.{
  ℕ, ◌≡◌, Bool, true, false, ◌||◌, List, [], ◌∷◌, ◌++◌, Option, none, some, Text, codes, is_nil,
  leb, ◌==◌, reverse, if◌then◌else◌,
}
use openconnectd.Strings.{trim_space}
use openconnectd.Errors.{Error, Result, ok, err, empty_base_url, api_code, api_message, api_status}
use openconnectd.Exec.{Exec, continue, ◌>>=◌, lift}
use openconnectd.Api.{
  VersionInfo, Instance, InstanceCreateRequest, ClientPeer, ClientCreateRequest, Session, ErrorBody,
}
use openconnectd.Params.Json.{Fields}

-- An http.Request; `none` is a header that is not set, or a body that is not there.
pub record Sent : Type 0 where
  pub method : Text
  pub url : Text
  pub content_type : Option Text
  pub authorization : Option Text
  pub body : Option Text

pub record Reply : Type 0 where
  pub status : ℕ
  pub data' : Text

-- http.Client.Do with io.ReadAll, on the state of what answers.
abbrev pub Transport : Type 0 → Type 0
Transport S = Sent → Exec S Reply

-- json.Marshal and json.Unmarshal at the wire types.
pub record Wire : Type 0 where
  pub write_instance : InstanceCreateRequest → Result Text
  pub write_client : ClientCreateRequest → Result Text
  pub write_fields : Fields → Result Text
  pub read_error : Text → Result ErrorBody
  pub read_version : Text → Result VersionInfo
  pub read_instance : Text → Result Instance
  pub read_instances : Text → Result (List Instance)
  pub read_client : Text → Result ClientPeer
  pub read_clients : Text → Result (List ClientPeer)
  pub read_sessions : Text → Result (List Session)

pub record Client : Type 0 where
  pub base_url : Text
  pub token : Text

-- WithToken; the HTTP client of WithHTTPClient is the transport.
pub data Opt : Type 0 where
  with_token : Text → Opt
  with_http_client : Opt

abbrev pub applied : Opt → Client → Client
applied (with_token t) c = record c { token = t }
applied with_http_client c = c

apply_all : List Opt → Client → Client
apply_all [] c = c
apply_all (o ∷ os) c = apply_all os (applied o c)

trim_left_slash : Text → Text
trim_left_slash [] = []
trim_left_slash (c ∷ s) = let rest = trim_left_slash s in if c == b'/' then rest else c ∷ s

abbrev checked : Client → Result Client
checked c = if is_nil c.base_url then err empty_base_url else ok c

-- NewClient
unfoldable pub new_client : Text → List Opt → Result Client
unfolding apply_all trim_left_slash
new_client base opts =
    checked
      (apply_all opts (record { base_url = reverse (trim_left_slash (reverse base)); token = [] }))

abbrev bearer : Text → Option Text
bearer token = if is_nil token then none else some (codes "Bearer " ++ token)

abbrev type_of : Option Text → Option Text
type_of none = none
type_of (some body) = some (codes "application/json")

abbrev error_of : ℕ → Text → Result ErrorBody → Error
error_of status data' (ok e) =
    if is_nil e.message
    then api_status status (trim_space data')
    else if is_nil e.code
    then api_message e.message
    else api_code e.code e.message
error_of status data' (err x) = api_status status (trim_space data')

module _ (wire : Wire) where
  -- decodeErr
  unfoldable pub decode_err : ℕ → Text → Error
  decode_err status data' = error_of status data' (wire.read_error data')

  -- A status from 400 on is an error.
  unfoldable pub accepted : Reply → Result Reply
  accepted r = if leb 400 r.status then err (decode_err r.status r.data') else ok r

abbrev as_some {ℓ} : {A : Type ℓ} → Result A → Result (Option A)
as_some (ok a) = ok (some a)
as_some (err e) = err e

abbrev read_into {ℓ} : {A : Type ℓ} → (Text → Result A) → Reply → Result (Option A)
read_into read r = if r.status == 204 || is_nil r.data' then ok none else as_some (read r.data')

module _ (wire : Wire) {S : Type 0} (transport : Transport S) (c : Client) where
  unfoldable pub round_trip : Text → Text → Option Text → Exec S Reply
  round_trip method path body =
      transport (record {
        method = method;
        url = c.base_url ++ path;
        content_type = type_of body;
        authorization = bearer c.token;
        body = body;
      })
      >>= λ r. lift (accepted wire r)

  -- do, with a body, if there is one, that has been marshalled, and nothing to read.
  unfoldable pub send : Text → Text → Option Text → Exec S (Unit {0})
  send method path body = round_trip method path body >>= λ r. lift (ok tt)

  -- do, into `out`: an answer without a body leaves it at its zero value, which is `none`.
  unfoldable pub fetch {ℓ} :
      {A : Type ℓ} → (Text → Result A) → Text → Text → Option Text → Exec S (Option A)
  fetch read method path body = round_trip method path body >>= λ r. lift (read_into read r)

  -- text
  unfoldable pub text : Text → Exec S Text
  text path = round_trip (codes "GET") path none >>= λ r. lift (ok r.data')
