-- ===== src/Rekor/Statuses.antt =====
-- src/rekor/apis: which answers of the log are errors.
use sigstore_rs.Prelude.{
  Bytes, String, true, ◌||◌, ◌≡◌, refl, sym, ap, ◌∙◌, subst, ◌↔◌, Option, none, some, [], ok, err,
  map_err, Bool-cases, inl, inr,
}
use sigstore_rs.Errors.{Foreign}
use sigstore_rs.Crypto.Libs.{Libs}
use sigstore_rs.Rekor.{
  Configuration, Request, Http, Answer, serde, response_error, ResponseContent, to_option, respond,
  call, post, read_text, read_response, execute_built,
}
use sigstore_rs.Rekor.Models.{ProposedEntry, LogEntry}
use sigstore_rs.Rekor.Response.{parse_response}
use sigstore_rs.Rekor.LogEntry
use sigstore_rs.Rekor.LogEntry.{EntryJson, and_then}
use sigstore_rs.Rekor.Apis.{
  Payload, proposed_entry, ApiJson, CreateLogEntryError, create_log_entry, log_entry, request,
}

-- a success that is no refusal
abbrev NeverRefuses : {S T A : Type 0} → (Bytes → Answer S T A) → Type 0
NeverRefuses {S} {T} success =
    (content : Bytes) (c : ResponseContent S T)
    → ¬ (success content ≡ some (err (response_error c)))

ok_of : {A : Type 0} {a b : A} → ◌≡◌ {A = Foreign A} (ok a) (ok b) → a ≡ b
ok_of h = cc

the_content :
    {S T A : Type 0} {c d : ResponseContent S T}
    → ◌≡◌ {A = Answer S T A} (some (err (response_error c))) (some (err (response_error d)))
    → d ≡ c
the_content h = cc

module _ {Payload W : Type 0} (H : Http Payload W) {T : Type 0} (entity : Bytes → Foreign T) where
  -- a client or a server error, with its status, its text and what the text reads as
  pub record IsRefusal (status : H.StatusCode) (content : Bytes)
      (c : ResponseContent H.StatusCode T) : Type 0 where
    pub refused : H.is_client_error status || H.is_server_error status ≡ true
    pub same :
        c ≡ record { status = status; content = content; entity = to_option (entity content) }

  -- The request was built, sent and answered, and the answer was read and is a refusal.
  pub record IsRefused (req : Request Payload) (w : W) (c : ResponseContent H.StatusCode T)
      : Type 0 where
    pub built : H.Built
    pub was_built : H.build req ≡ ok built
    pub response : H.Response
    pub was_answered : (H.execute built w).0 ≡ ok response
    pub content : Bytes
    pub was_read : (H.text response (H.execute built w).1).0 ≡ ok content
    pub refusal : IsRefusal (H.status response) content c

  module _ {A : Type 0} (success : Bytes → Answer H.StatusCode T A)
      (c : ResponseContent H.StatusCode T) where
    abbrev Fails : Answer H.StatusCode T A × W → Type 0
    Fails p = p.0 ≡ some (err (response_error c))

    respond-refused :
        NeverRefuses success
        → (status : H.StatusCode) (content : Bytes)
        → respond H entity success status content ≡ some (err (response_error c))
        → IsRefusal status content c
    unfolding respond
    respond-refused never status content h =
        elim (Bool-cases (H.is_client_error status || H.is_server_error status)) [
          | inl e ↦ record { refused = e; same = the_content (rw e at h) }
          | inr e ↦ elim (never content c (rw e at h)) [ ]
        ]

    read-refused :
        NeverRefuses success
        → (status : H.StatusCode) (p : Foreign Bytes × W)
        → Fails (read_text H entity success status p)
        → (content : Bytes) × (p.0 ≡ ok content) × IsRefusal status content c
    unfolding read_text
    read-refused never status (ok content, w) h =
        (content, refl, respond-refused never status content h)
    read-refused never status (err e, w) h = cc

    response-refused :
        NeverRefuses success
        → (p : Foreign H.Response × W) → Fails (read_response H entity success p)
        → (response : H.Response) × (content : Bytes) × (p.0 ≡ ok response)
          × ((H.text response p.1).0 ≡ ok content)
          × IsRefusal (H.status response) content c
    unfolding read_response
    response-refused never (ok response, w) h =
        let (content, e, r) = read-refused never (H.status response) (H.text response w) h in
        (response, content, refl, e, r)
    response-refused never (err e, w) h = cc

    built-IsRefused :
        NeverRefuses success
        → (req : Request Payload) (w : W) (b : Foreign H.Built) → H.build req ≡ b
        → Fails (execute_built H entity success b w)
        → IsRefused req w c
    unfolding execute_built
    built-IsRefused never req w (err e) eq h = cc
    built-IsRefused never req w (ok built) eq h =
        let (response, content, e, f, r) = response-refused never (H.execute built w) h in
        record {
          built = built;
          was_built = eq;
          response = response;
          was_answered = e;
          content = content;
          was_read = f;
          refusal = r;
        }

    refusal-respond :
        (status : H.StatusCode) (content : Bytes)
        → IsRefusal status content c
        → respond H entity success status content ≡ some (err (response_error c))
    unfolding respond
    refusal-respond status content r =
        rw (r.refused) (ap (λ d. some (err (response_error d))) (sym r.same))

    refused-read :
        (status : H.StatusCode) (p : Foreign Bytes × W) (content : Bytes)
        → p.0 ≡ ok content
        → IsRefusal status content c
        → Fails (read_text H entity success status p)
    unfolding read_text
    refused-read status (ok text, w) content e r =
        ap (respond H entity success status) (ok_of e) ∙ refusal-respond status content r
    refused-read status (err x, w) content e r = cc

    refused-response :
        (p : Foreign H.Response × W) (response : H.Response) (content : Bytes)
        → p.0 ≡ ok response
        → (H.text response p.1).0 ≡ ok content
        → IsRefusal (H.status response) content c
        → Fails (read_response H entity success p)
    unfolding read_response
    refused-response (ok other, w) response content e f r =
        subst (λ x. Fails (read_text H entity success (H.status x) (H.text x w))) (sym (ok_of e))
          (refused-read (H.status response) (H.text response w) content f r)
    refused-response (err x, w) response content e f r = cc

    refused-built :
        (req : Request Payload) (w : W) (b : Foreign H.Built)
        → H.build req ≡ b
        → IsRefused req w c
        → Fails (execute_built H entity success b w)
    unfolding execute_built
    refused-built req w (err x) eq r = let g = sym eq ∙ r.was_built in cc
    refused-built req w (ok built) eq r =
        subst (λ x. Fails (read_response H entity success (H.execute x w)))
          (ok_of (sym r.was_built ∙ eq))
          (refused-response (H.execute r.built w) r.response r.content r.was_answered r.was_read
            r.refusal)

  call-IsRefused_iff :
      {A : Type 0} (success : Bytes → Answer H.StatusCode T A)
      → NeverRefuses success
      → (req : Request Payload) (w : W) (c : ResponseContent H.StatusCode T)
      → ((call H entity success req w).0 ≡ some (err (response_error c))) ↔ IsRefused req w c
  unfolding call
  call-IsRefused_iff success never req w c = (
    built-IsRefused success c never req w (H.build req) refl,
    refused-built success c req w (H.build req) refl,
  )

-- reading the entry gives no refusal
serde_only :
    {S T : Type 0} (o : Option (Foreign LogEntry)) (c : ResponseContent S T)
    → ¬ (
        ◌≡◌ {A = Answer S T LogEntry}
          (and_then o (λ entry. some (map_err serde entry)))
          (some (err (response_error c))))
serde_only none c h = cc
serde_only (some (ok entry)) c h = cc
serde_only (some (err e)) c h = cc

parsed_only :
    {S T : Type 0} (L : Libs) (E : EntryJson) (o : Option Bytes) (c : ResponseContent S T)
    → ¬ (
        ◌≡◌ {A = Answer S T LogEntry}
          (and_then o
            (λ text. and_then (LogEntry.from_str L E text) (λ entry. some (map_err serde entry))))
          (some (err (response_error c))))
parsed_only L E none c h = cc
parsed_only L E (some text) c h = serde_only (LogEntry.from_str L E text) c h

entry_never :
    {S T : Type 0} (L : Libs) (E : EntryJson) → NeverRefuses {S = S} {T = T} (log_entry L E)
unfolding log_entry
entry_never L E content c h = parsed_only L E (parse_response content) c h

module _ {W : Type 0} (H : Http Payload W) (L : Libs) (E : EntryJson) (J : ApiJson)
    (urlencode : String → String) (configuration : Configuration) where
  -- create_log_entry returns a response error exactly where the log answered the request with a
  -- client or a server error, and the error holds the status, the text and what the text reads as.
  pub create_log_entry-IsRefused :
      (entry : ProposedEntry) (w : W) (c : ResponseContent H.StatusCode CreateLogEntryError)
      → ((create_log_entry H L E J urlencode configuration entry w).0
          ≡ some (err (response_error c)))
        ↔ IsRefused H J.create_log_entry_error
            (request H L E J urlencode configuration post "/api/v1/log/entries" []
              (some (proposed_entry entry)))
            w
            c
  unfolding create_log_entry
  create_log_entry-IsRefused entry w c =
      call-IsRefused_iff H J.create_log_entry_error (log_entry L E) (entry_never L E) _ w c
