-- ===== src/Rekor.antt =====
-- src/rekor: the client of the transparency log. This file holds src/rekor/apis/mod.rs and
-- configuration.rs, and what the calls share; reqwest, url and serde_json are parameters.
pub mod Models
pub mod Response
pub mod LogEntry
pub mod Apis
pub mod Slices
pub mod Statuses
use sigstore_rs.Prelude.{
  String, Bytes, Bool, Option, none, some, List, Result, ok, err, ◌||◌, if◌then◌else◌,
}
use sigstore_rs.Errors.{Foreign}

abbrev pub BasicAuth : Type 0
BasicAuth = String × Option String

pub record ApiKey : Type 0 where
  pub prefix : Option String
  pub key : String

-- without the client, which is the `Http` below
pub record Configuration : Type 0 where
  pub base_path : String
  pub user_agent : Option String
  pub basic_auth : Option BasicAuth
  pub oauth_access_token : Option String
  pub bearer_access_token : Option String
  pub api_key : Option ApiKey

-- `Configuration::default()`, for the user agent that the version of the package gives
unfoldable pub default : String → Configuration
default user_agent = record {
  base_path = "https://rekor.sigstore.dev";
  user_agent = some user_agent;
  basic_auth = none;
  oauth_access_token = none;
  bearer_access_token = none;
  api_key = none;
}

pub data Method : Type 0 where
  get post : Method

-- a request builder: what the calls set of it, with the body that `json` serialises
pub record Request (Payload : Type 0) : Type 0 where
  pub method : Method
  pub uri : String
  pub query : List (String × String)
  pub user_agent : Option String
  pub body : Option Payload

-- reqwest on the state `W` of the network; a text is given by its UTF-8 bytes
pub record Http (Payload W : Type 0) : Type 1 where
  pub Built : Type 0
  pub build : Request Payload → Foreign Built
  pub StatusCode : Type 0
  pub Response : Type 0
  pub execute : Built → W → Foreign Response × W
  pub status : Response → StatusCode
  pub text : Response → W → Foreign Bytes × W
  pub is_client_error : StatusCode → Bool
  pub is_server_error : StatusCode → Bool

pub record ResponseContent (Status T : Type 0) : Type 0 where
  pub status : Status
  pub content : Bytes
  pub entity : Option T

-- src/rekor/apis/mod.rs: `Error<T>`
pub data Error (Status T : Type 0) : Type 0 where
  reqwest serde io : String → Error Status T
  response_error : ResponseContent Status T → Error Status T

-- `.ok()`
abbrev pub to_option : {A : Type 0} → Foreign A → Option A
to_option (ok a) = some a
to_option (err e) = none

-- What a call returns; `none` is a panic.
abbrev pub Answer : Type 0 → Type 0 → Type 0 → Type 0
Answer Status T A = Option (Result (Error Status T) A)

module _ {Payload W : Type 0} (H : Http Payload W) {T A : Type 0} (entity : Bytes → Foreign T)
    (success : Bytes → Answer H.StatusCode T A) where
  -- how each call ends
  unfoldable pub respond : H.StatusCode → Bytes → Answer H.StatusCode T A
  respond status content =
      let answered = success content in
      if H.is_client_error status || H.is_server_error status
      then some (
          err (
            response_error
              (record { status = status; content = content; entity = to_option (entity content) })))
      else answered

  read_text : H.StatusCode → Foreign Bytes × W → Answer H.StatusCode T A × W
  read_text status (ok content, w) = (respond status content, w)
  read_text status (err e, w) = (some (err (reqwest e)), w)

  read_response : Foreign H.Response × W → Answer H.StatusCode T A × W
  unfolding read_text
  read_response (ok resp, w) = read_text (H.status resp) (H.text resp w)
  read_response (err e, w) = (some (err (reqwest e)), w)

  execute_built : Foreign H.Built → W → Answer H.StatusCode T A × W
  unfolding read_response
  execute_built (ok req) w = read_response (H.execute req w)
  execute_built (err e) w = (some (err (reqwest e)), w)

  -- `build()?`, `execute(…).await?`, the status, `text().await?`
  unfoldable pub call : Request Payload → W → Answer H.StatusCode T A × W
  unfolding execute_built
  call request w = execute_built (H.build request) w
