-- ===== src/HttpApi.antt =====
-- internal/httpapi/server.go: the requests, the answers and what the handlers share. The JSON that is
-- read is a parameter, and the JSON that is written stands as the value that is encoded.
pub mod Url
pub mod Mux
pub mod Handlers
pub mod Serve
pub mod Routing
pub mod Steps
pub mod Safety
pub mod Reads
pub mod Managed
use openconnectd.Base.{
  ℕ, ◌≡◌, Bool, true, false, List, [], ◌∷◌, ◌++◌, Option, none, some, Text, codes, drop, length,
  ltb, is_nil, same, if◌then◌else◌,
}
use openconnectd.Errors.{Error, Result, ok, err}
use openconnectd.Errors.Message.{message}
use openconnectd.Exec.{Exec}
use openconnectd.Api.{
  VersionInfo, Instance, InstanceCreateRequest, ClientPeer, ClientCreateRequest, Session, Ban,
  ErrorBody,
}
use openconnectd.Params.Json.{Fields}
use openconnectd.Status.{status_for}
use openconnectd.Manager.{Setting, World}

-- `target` is the path with its query, as the client sends it.
pub record Request : Type 0 where
  pub method : Text
  pub target : Text
  pub authorization : Text
  pub body : Text

pub data Value : Type 0 where
  version_info : VersionInfo → Value
  instances : List Instance → Value
  instance_of : Instance → Value
  clients : List ClientPeer → Value
  client_of : ClientPeer → Value
  sessions : List Session → Value
  bans : List Ban → Value
  error_body : ErrorBody → Value

-- text/plain, or application/json
pub data Content : Type 0 where
  nothing : Content
  plain : Text → Content
  json : Value → Content

pub record Response : Type 0 where
  pub status : ℕ
  pub content : Content

-- Server: the manager's setting with the daemon's settings in it, what the build injects, and what the
-- packages of Go bring.
pub record Server : Type 0 where
  pub setting : Setting
  pub version : Text
  pub commit : Text
  pub canceled : Error → Bool
  pub read_instance : Text → Result InstanceCreateRequest
  pub read_client : Text → Result ClientCreateRequest
  pub read_fields : Text → Result Fields

-- A handler, with the state that it meets and leaves.
abbrev pub Answer : Type 0
Answer = World → Response × World

abbrev pub write_json : ℕ → Value → Response
write_json status v = record { status = status; content = json v }

abbrev pub write_err : ℕ → Text → Text → Response
write_err status code text = write_json status (error_body (record { code = code; message = text }))

abbrev pub no_content : Response
no_content = record { status = 204; content = nothing }

abbrev pub healthy : Response
healthy = record { status = 200; content = plain (codes "ok") }

abbrev pub unauthorized : Response
unauthorized = write_err 401 (codes "unauthorized") (codes "bad or missing token")

-- The comparison in constant time is one of texts; seven bytes stand before the token.
unfoldable pub authorized : Text → Text → Bool
authorized token header =
    if is_nil token
    then true
    else if ltb (length (codes "Bearer ")) (length header)
    then same (drop (length (codes "Bearer ")) header) token
    else false

-- auth: without the token the handler is not called.
unfoldable pub auth : Text → Text → Answer → Answer
auth token header next w = if authorized token header then next w else (unauthorized, w)

module _ (s : Server) where
  abbrev pub respond {ℓ} : {A : Type ℓ} → Text → (A → Response) → Result A → Response
  respond code f (ok a) = f a
  respond code f (err e) =
      write_err (status_for s.setting.quote s.canceled (some e)) code (message s.setting.quote e)

  -- A call of the manager, and the answer that its result becomes.
  unfoldable pub answer {ℓ} : {A : Type ℓ} → Text → (A → Response) → Exec World A → Answer
  answer code f m w = let (r, w') = m w in (respond code f r, w')

  -- decode: a body that is no JSON of its type is refused before the manager is called.
  unfoldable pub decode {ℓ} : {A : Type ℓ} → Result A → (A → Answer) → Answer
  decode (ok a) k w = k a w
  decode (err e) k w =
      (write_err 400 (codes "bad_request") (codes "invalid JSON: " ++ message s.setting.quote e), w)
