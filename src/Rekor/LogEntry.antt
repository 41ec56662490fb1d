-- ===== src/Rekor/LogEntry.antt =====
-- src/rekor/models/log_entry.rs: reading a log entry, whose body is in base64.
use sigstore_rs.Prelude.{String, Bytes, Option, none, some, ok, err, map_err, ◌>>=◌, as_bytes}
use sigstore_rs.HashMap.{HashMap, get, insert}
use sigstore_rs.Errors.{Outcome, Foreign, base64_decode_error, serde_json_error}
use sigstore_rs.Crypto.Libs.{Libs}
use sigstore_rs.Cosign.Payload.{Value, string}
use sigstore_rs.Rekor.Models.{Body, LogEntry}

-- serde_json on these types
pub record EntryJson : Type 0 where
  pub map_from_str : Bytes → Foreign (HashMap Value)
  pub map_to_string : HashMap Value → Foreign Bytes
  pub body_from_slice : Bytes → Foreign Body
  pub body_to_value : Body → Foreign Value
  pub log_entry_from_str : Bytes → Foreign LogEntry

unfoldable pub as_str : Value → Option String
as_str (string s) = some s
as_str _ = none

-- `expect`
abbrev pub expect : {A : Type 0} → Foreign A → Option A
expect (ok a) = some a
expect (err e) = none

abbrev pub expect_outcome : {A : Type 0} → Outcome A → Option A
expect_outcome (ok a) = some a
expect_outcome (err e) = none

abbrev pub and_then : {A B : Type 0} → Option A → (A → Option B) → Option B
and_then none f = none
and_then (some a) f = f a

module _ (L : Libs) (J : EntryJson) where
  unfoldable pub decode_body : String → Outcome Body
  decode_body s = do
    decoded ← map_err base64_decode_error (L.base64_decode (as_bytes s))
    map_err serde_json_error (J.body_from_slice decoded)

  -- what `and_modify` puts in the place of the body; `none` is a panic
  unfoldable pub decoded_value : Value → Option Value
  decoded_value body = and_then (as_str body) (λ text.
      and_then (expect_outcome (decode_body text)) (λ decoded. expect (J.body_to_value decoded)))

  unfoldable pub modify_body : Option Value → HashMap Value → Option (HashMap Value)
  modify_body none log_entry_map = some log_entry_map
  modify_body (some body) log_entry_map =
      and_then (decoded_value body) (λ value. some (insert "body" value log_entry_map))

  -- `serde_json::to_string(…)?` and the `expect` on the entry
  unfoldable pub read_entry : Foreign Bytes → Option (Foreign LogEntry)
  read_entry (err e) = some (err e)
  read_entry (ok log_entry_str) =
      and_then (expect (J.log_entry_from_str log_entry_str)) (λ entry. some (ok entry))

  unfoldable pub read_map : Foreign (HashMap Value) → Option (Foreign LogEntry)
  read_map (err e) = some (err e)
  read_map (ok log_entry_map) =
      and_then (modify_body (get "body" log_entry_map) log_entry_map)
        (λ modified. read_entry (J.map_to_string modified))

  -- `LogEntry::from_str`
  unfoldable pub from_str : Bytes → Option (Foreign LogEntry)
  from_str s = read_map (J.map_from_str s)
