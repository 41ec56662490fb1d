-- ===== src/Tests/Log.antt =====
-- Examples: answers of the transparency log, over a network that gives back the status that it holds.
use sigstore_rs.Prelude.{
  ℕ, zero, suc, ◌<◌, Bytes, Bool, true, not, ◌&&◌, ltb, ◌≡◌, refl, ◌↔◌, none, some, [], ◌∷◌, ◌++◌,
  ok, err, arith, Bool-cases, inl, inr,
}
use sigstore_rs.Errors.{Foreign}
use sigstore_rs.Cosign.Payload.{null}
use sigstore_rs.Rekor.{Request, Http, post, response_error, ResponseContent, default, call, respond}
use sigstore_rs.Rekor.Models.{ProposedEntry}
use sigstore_rs.Rekor.LogEntry.{EntryJson}
use sigstore_rs.Rekor.Apis.{
  Payload, proposed_entry, ApiJson, CreateLogEntryError, create_log_entry, request,
  default_response,
}
use sigstore_rs.Rekor.Apis
use sigstore_rs.Rekor.Response.{
  uuid_field, parse_response, slice, drop, take, starts_char, join_parts,
}
use sigstore_rs.Rekor.Slices.{
  IsAscii, entry_answer, parse_response_panics_iff, parse_response-entry_answer,
}
use sigstore_rs.Rekor.Statuses.{IsRefused, create_log_entry-IsRefused}
use sigstore_rs.Tests.Toy.{toy}

abbrev repeat : ℕ → Bytes
repeat zero = []
repeat (suc n) = 97 ∷ repeat n

abbrev is_ascii : Bytes → Bool
is_ascii [] = true
is_ascii (b ∷ bytes) = ltb b 128 && is_ascii bytes

is_ascii_sound : (bytes : Bytes) → is_ascii bytes ≡ true → IsAscii bytes
is_ascii_sound [] h = tt
is_ascii_sound (b ∷ bytes) h = elim (Bool-cases (ltb b 128)) [
  | inl e ↦ (ground arith, is_ascii_sound bytes (rw e at h))
  | inr e ↦ let g = rw e at h in cc
]

abbrev uuid : Bytes
uuid = repeat 80

abbrev rest : Bytes
rest = 34 ∷ 97 ∷ 34 ∷ 58 ∷ 49 ∷ 125 ∷ []

parse_response-entry_answer_example :
    parse_response (entry_answer uuid rest 125 10)
    ≡ some (uuid_field ++ (34 ∷ uuid) ++ 34 ∷ 44 ∷ rest)
parse_response-entry_answer_example =
    parse_response-entry_answer uuid rest 125 10 refl
      (is_ascii_sound (entry_answer uuid rest 125 10) refl)

parse_response_panics_iff_example : (parse_response (123 ∷ 125 ∷ []) ≡ none) ↔ (2 < 87)
parse_response_panics_iff_example =
    parse_response_panics_iff (123 ∷ 125 ∷ []) (is_ascii_sound (123 ∷ 125 ∷ []) refl)

-- the answer `{}` makes it panic
empty_object : parse_response (123 ∷ 125 ∷ []) ≡ none
unfolding parse_response slice drop take starts_char join_parts
empty_object = refl

abbrev network : Http Payload ℕ
network = record {
  Built = Request Payload;
  build = ok;
  StatusCode = ℕ;
  Response = ℕ;
  execute = λ req w. (ok w, w);
  status = λ r. r;
  text = λ r w. (ok (123 ∷ 125 ∷ []), w);
  is_client_error = λ s. not (ltb s 400) && ltb s 500;
  is_server_error = λ s. not (ltb s 500) && ltb s 600;
}

abbrev unreadable : {A : Type 0} → Bytes → Foreign A
unreadable bytes = err "unreadable"

abbrev entry_json : EntryJson
entry_json = record {
  map_from_str = unreadable;
  map_to_string = λ m. err "unprintable";
  body_from_slice = unreadable;
  body_to_value = λ b. err "unprintable";
  log_entry_from_str = unreadable;
}

abbrev failure : CreateLogEntryError
failure = Apis.CreateLogEntryError.default_response (record { code = none; message = none })

abbrev api_json : ApiJson
api_json = record {
  create_log_entry_error = λ bytes. ok failure;
  get_log_entry_by_index_error = unreadable;
  get_log_entry_by_uuid_error = unreadable;
  search_log_query_error = unreadable;
  search_index_error = unreadable;
  get_public_key_error = unreadable;
  get_log_info_error = unreadable;
  get_log_proof_error = unreadable;
  uuids = unreadable;
  log_info = unreadable;
  consistency_proof = unreadable;
}

abbrev entry : ProposedEntry
entry = ProposedEntry.rekord "0.0.1" null

abbrev conflict : ResponseContent ℕ CreateLogEntryError
conflict = record { status = 409; content = 123 ∷ 125 ∷ []; entity = some failure }

-- a conflict is an error, with what its text reads as
refused :
    (create_log_entry network toy entry_json api_json (λ s. s) (default "sigstore-rs") entry 409).0
    ≡ some (err (response_error conflict))
unfolding create_log_entry call respond default request
refused = refl

create_log_entry-IsRefused_example :
    ((create_log_entry network toy entry_json api_json (λ s. s) (default "sigstore-rs") entry 409).0
      ≡ some (err (response_error conflict)))
    ↔ IsRefused network api_json.create_log_entry_error
        (request network toy entry_json api_json
          (λ s. s)
          (default "sigstore-rs")
          post
          "/api/v1/log/entries"
          []
          (some (proposed_entry entry)))
        409
        conflict
create_log_entry-IsRefused_example =
    create_log_entry-IsRefused network toy entry_json api_json (λ s. s) (default "sigstore-rs")
      entry 409 conflict
