-- ===== src/Rekor/Apis.antt =====
-- src/rekor/apis: the calls of entries_api.rs, index_api.rs, pubkey_api.rs and tlog_api.rs.
use sigstore_rs.Prelude.{
  suc, ℤ, pos, negsuc, String, Bytes, Option, none, some, List, [], ◌∷◌, ◌++◌, ok, map_err, concat,
  decimal,
}
use sigstore_rs.Errors.{Foreign}
use sigstore_rs.Crypto.Libs.{Libs}
use sigstore_rs.Cosign.Payload.{Value}
use sigstore_rs.Rekor.{Configuration, Method, get, post, Request, Http, Answer, serde, call}
use sigstore_rs.Rekor.Models.{
  ErrorModel, LogEntry, ProposedEntry, SearchLogQuery, SearchIndex, LogInfo, ConsistencyProof,
}
use sigstore_rs.Rekor.Response.{parse_response}
use sigstore_rs.Rekor.LogEntry
use sigstore_rs.Rekor.LogEntry.{EntryJson, and_then}

pub data CreateLogEntryError : Type 0 where
  status400 status409 default_response : ErrorModel → CreateLogEntryError
  unknown_value : Value → CreateLogEntryError

pub data GetLogEntryByIndexError : Type 0 where
  status404 : GetLogEntryByIndexError
  default_response : ErrorModel → GetLogEntryByIndexError
  unknown_value : Value → GetLogEntryByIndexError

pub data GetLogEntryByUuidError : Type 0 where
  status404 : GetLogEntryByUuidError
  default_response : ErrorModel → GetLogEntryByUuidError
  unknown_value : Value → GetLogEntryByUuidError

pub data SearchLogQueryError : Type 0 where
  status400 default_response : ErrorModel → SearchLogQueryError
  unknown_value : Value → SearchLogQueryError

pub data SearchIndexError : Type 0 where
  status400 default_response : ErrorModel → SearchIndexError
  unknown_value : Value → SearchIndexError

pub data GetPublicKeyError : Type 0 where
  default_response : ErrorModel → GetPublicKeyError
  unknown_value : Value → GetPublicKeyError

pub data GetLogInfoError : Type 0 where
  default_response : ErrorModel → GetLogInfoError
  unknown_value : Value → GetLogInfoError

pub data GetLogProofError : Type 0 where
  status400 default_response : ErrorModel → GetLogProofError
  unknown_value : Value → GetLogProofError

-- what `json` serialises
pub data Payload : Type 0 where
  proposed_entry : ProposedEntry → Payload
  log_query : SearchLogQuery → Payload
  index_query : SearchIndex → Payload

-- serde_json on the answers
pub record ApiJson : Type 0 where
  pub create_log_entry_error : Bytes → Foreign CreateLogEntryError
  pub get_log_entry_by_index_error : Bytes → Foreign GetLogEntryByIndexError
  pub get_log_entry_by_uuid_error : Bytes → Foreign GetLogEntryByUuidError
  pub search_log_query_error : Bytes → Foreign SearchLogQueryError
  pub search_index_error : Bytes → Foreign SearchIndexError
  pub get_public_key_error : Bytes → Foreign GetPublicKeyError
  pub get_log_info_error : Bytes → Foreign GetLogInfoError
  pub get_log_proof_error : Bytes → Foreign GetLogProofError
  pub uuids : Bytes → Foreign (List String)
  pub log_info : Bytes → Foreign LogInfo
  pub consistency_proof : Bytes → Foreign ConsistencyProof

-- `i32::to_string`
unfoldable pub int_to_string : ℤ → String
int_to_string (pos n) = decimal n
int_to_string (negsuc n) = concat ("-" ∷ decimal (suc n) ∷ [])

-- `if let Some(…)` around a `query(…)`
unfoldable pub optional_query : String → Option String → List (String × String)
optional_query name none = []
optional_query name (some value) = (name, value) ∷ []

abbrev pub from_json : {Status T A : Type 0} → (Bytes → Foreign A) → Bytes → Answer Status T A
from_json parse content = some (map_err serde (parse content))

abbrev pub plain_text : {Status T : Type 0} → Bytes → Answer Status T Bytes
plain_text content = some (ok content)

-- `LogEntry::from_str(&(parse_response(content))).map_err(Error::from)`
unfoldable pub log_entry : {Status T : Type 0} → Libs → EntryJson → Bytes → Answer Status T LogEntry
log_entry L E content =
    and_then (parse_response content)
      (λ text. and_then (LogEntry.from_str L E text) (λ entry. some (map_err serde entry)))

module _ {W : Type 0} (H : Http Payload W) (L : Libs) (E : EntryJson) (J : ApiJson)
    (urlencode : String → String) (configuration : Configuration) where
  unfoldable pub request :
      Method → String → List (String × String) → Option Payload → Request Payload
  request method path query body = record {
    method = method;
    uri = concat (configuration.base_path ∷ path ∷ []);
    query = query;
    user_agent = configuration.user_agent;
    body = body;
  }

  unfoldable pub create_log_entry :
      ProposedEntry → W → Answer H.StatusCode CreateLogEntryError LogEntry × W
  create_log_entry entry =
      call H J.create_log_entry_error (log_entry L E)
        (request post "/api/v1/log/entries" [] (some (proposed_entry entry)))

  unfoldable pub get_log_entry_by_index :
      ℤ → W → Answer H.StatusCode GetLogEntryByIndexError LogEntry × W
  get_log_entry_by_index log_index =
      call H J.get_log_entry_by_index_error (log_entry L E)
        (request get "/api/v1/log/entries" (("logIndex", int_to_string log_index) ∷ []) none)

  unfoldable pub get_log_entry_by_uuid :
      String → W → Answer H.StatusCode GetLogEntryByUuidError LogEntry × W
  get_log_entry_by_uuid entry_uuid =
      call H J.get_log_entry_by_uuid_error (log_entry L E)
        (request get (concat ("/api/v1/log/entries/" ∷ urlencode entry_uuid ∷ [])) [] none)

  unfoldable pub search_log_query :
      SearchLogQuery → W → Answer H.StatusCode SearchLogQueryError Bytes × W
  search_log_query entry =
      call H J.search_log_query_error plain_text
        (request post "/api/v1/log/entries/retrieve" [] (some (log_query entry)))

  unfoldable pub search_index :
      SearchIndex → W → Answer H.StatusCode SearchIndexError (List String) × W
  search_index query =
      call H J.search_index_error (from_json J.uuids)
        (request post "/api/v1/index/retrieve" [] (some (index_query query)))

  unfoldable pub get_public_key :
      Option String → W → Answer H.StatusCode GetPublicKeyError Bytes × W
  get_public_key tree_id =
      call H J.get_public_key_error plain_text
        (request get "/api/v1/log/publicKey" (optional_query "treeID" tree_id) none)

  unfoldable pub get_log_info : W → Answer H.StatusCode GetLogInfoError LogInfo × W
  get_log_info =
      call H J.get_log_info_error (from_json J.log_info) (request get "/api/v1/log" [] none)

  unfoldable pub get_log_proof :
      ℤ
      → Option String
      → Option String
      → W
      → Answer H.StatusCode GetLogProofError ConsistencyProof × W
  get_log_proof last_size first_size tree_id =
      call H J.get_log_proof_error (from_json J.consistency_proof) (
        request get "/api/v1/log/proof"
          (optional_query "firstSize" first_size
            ++ ("lastSize", int_to_string last_size) ∷ optional_query "treeID" tree_id)
          none)
