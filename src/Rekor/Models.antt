-- ===== src/Rekor/Models.antt =====
-- src/rekor/models: the data of the log's requests and answers.
pub mod Kinds
use sigstore_rs.Prelude.{
  String, ℤ, Option, none, some, List, ok, map_err, ok_or, ◌>>=◌, from_utf8, as_bytes,
}
use sigstore_rs.Errors.{Outcome, base64_decode_error, utf8_error}
use sigstore_rs.Crypto.Libs.{Libs}
use sigstore_rs.Cosign.Payload.{Value}
use sigstore_rs.Rekor.Models.Kinds.{
  AlpineAllOf, HelmAllOf, JarAllOf, Rfc3161AllOf, RpmAllOf, TufAllOf, IntotoAllOf,
  HashedrekordAllOf, RekordAllOf,
}

-- `models::Error`
pub record ErrorModel : Type 0 where
  pub code : Option ℤ
  pub message : Option String

pub record Attestation : Type 0 where
  pub dummy : Option String

pub record InclusionProof : Type 0 where
  pub hashes : List String
  pub log_index : ℤ
  pub root_hash : String
  pub tree_size : ℤ

pub record Verification : Type 0 where
  pub inclusion_proof : Option InclusionProof
  pub signed_entry_timestamp : String

pub data Body : Type 0 where
  alpine : AlpineAllOf → Body
  helm : HelmAllOf → Body
  jar : JarAllOf → Body
  rfc3161 : Rfc3161AllOf → Body
  rpm : RpmAllOf → Body
  tuf : TufAllOf → Body
  intoto : IntotoAllOf → Body
  hashedrekord : HashedrekordAllOf → Body
  rekord : RekordAllOf → Body

pub record LogEntry : Type 0 where
  pub uuid : String
  pub attestation : Option Attestation
  pub body : Body
  pub integrated_time : ℤ
  pub log_i_d : String
  pub log_index : ℤ
  pub verification : Verification

-- src/rekor/models/hashedrekord.rs
pub record PublicKey : Type 0 where
  pub content : String

pub data AlgorithmKind : Type 0 where
  sha256 sha1 : AlgorithmKind

pub record Hash : Type 0 where
  pub algorithm : AlgorithmKind
  pub value : String

pub record DataModel : Type 0 where
  pub hash : Hash

pub record SignatureModel : Type 0 where
  pub content : String
  pub public_key : PublicKey

pub record Spec : Type 0 where
  pub signature : SignatureModel
  pub signed : DataModel

-- `PublicKey::decode`; the text of the `Utf8Error` is an argument
unfoldable pub decode : Libs → String → PublicKey → Outcome String
decode L utf8_failure self = do
  decoded ← map_err base64_decode_error (L.base64_decode (as_bytes self.content))
  ok_or (utf8_error utf8_failure) (from_utf8 decoded)

-- src/rekor/models/proposed_entry.rs
pub data ProposedEntry : Type 0 where
  alpine helm intoto jar rekord rfc3161 rpm tuf : String → Value → ProposedEntry
  hashedrekord : String → Spec → ProposedEntry

-- src/rekor/models/search_log_query.rs
pub record SearchLogQuery : Type 0 where
  pub entry_uuids : Option (List String)
  pub log_indexes : Option (List ℤ)
  pub entries : Option (List ProposedEntry)

-- src/rekor/models/search_index_public_key.rs
pub data Format : Type 0 where
  pgp x509 minisign ssh tuf : Format

pub record SearchIndexPublicKey : Type 0 where
  pub format : Format
  pub content : Option String
  pub url : Option String

-- src/rekor/models/search_index.rs
pub record SearchIndex : Type 0 where
  pub email : Option String
  pub public_key : Option SearchIndexPublicKey
  pub hash : Option String

-- src/rekor/models/consistency_proof.rs
pub record ConsistencyProof : Type 0 where
  pub root_hash : String
  pub hashes : List String

-- src/rekor/models/inactive_shard_log_info.rs
pub record InactiveShardLogInfo : Type 0 where
  pub root_hash : String
  pub tree_size : ℤ
  pub signed_tree_head : String
  pub tree_id : String

-- src/rekor/models/log_info.rs
pub record LogInfo : Type 0 where
  pub root_hash : String
  pub tree_size : ℤ
  pub signed_tree_head : String
  pub tree_id : Option String
  pub inactive_shards : Option (List InactiveShardLogInfo)
