-- ===== src/Cosign/Bundle.antt =====
-- src/cosign/bundle.rs: the bundle that Rekor produces, verified with Rekor's public key; and what
-- src/cosign calls of serde_json, as a parameter of the model.
use sigstore_rs.Prelude.{String, Bytes, ℤ, map_err, ◌>>=◌, ◌>>◌, ok, [], ◌∷◌, concat, as_bytes}
use sigstore_rs.Errors.{Foreign, Outcome, unexpected_error}
use sigstore_rs.Crypto.Libs.{Libs}
use sigstore_rs.Crypto.VerificationKey
use sigstore_rs.Crypto.VerificationKey.{CosignVerificationKey, base64_encoded}
use sigstore_rs.Cosign.Payload.{SimpleSigning}

pub record Payload : Type 0 where
  pub body : String
  pub integrated_time : ℤ
  pub log_index : ℤ
  pub log_id : String

pub record Bundle : Type 0 where
  pub signed_entry_timestamp : String
  pub payload : Payload

pub record SignedArtifactBundle : Type 0 where
  pub base64_signature : String
  pub cert : String
  pub rekor_bundle : Bundle

-- serde_json over the derived (de)serialisers, and olpc_cjson's canonical formatter
pub record Json : Type 0 where
  pub simple_signing_to_vec : SimpleSigning → Foreign Bytes
  pub simple_signing_from_slice : Bytes → Foreign SimpleSigning
  pub bundle_from_str : String → Foreign Bundle
  pub signed_artifact_bundle_from_str : String → Foreign SignedArtifactBundle
  pub canonical_payload : Payload → Foreign Bytes

module _ (L : Libs) (J : Json) where
  unfoldable pub verify_bundle : Bundle → CosignVerificationKey L → Outcome (Unit {0})
  verify_bundle bundle rekor_pub_key = do
    buf ←
        map_err
          (λ e.
            unexpected_error
              (concat ("Cannot create canonical JSON representation of bundle: " ∷ e ∷ [])))
          (J.canonical_payload bundle.payload)
    VerificationKey.verify_signature L rekor_pub_key
        (base64_encoded (as_bytes bundle.signed_entry_timestamp)) buf

  -- `Bundle::new_verified`
  unfoldable pub new_verified : String → CosignVerificationKey L → Outcome Bundle
  new_verified raw rekor_pub_key = do
    bundle ←
        map_err (λ e. unexpected_error (concat ("Cannot parse bundle |" ∷ raw ∷ "|: " ∷ e ∷ [])))
          (J.bundle_from_str raw)
    verify_bundle bundle rekor_pub_key
    ok bundle

  -- `SignedArtifactBundle::new_verified`
  unfoldable pub new_verified_artifact :
      String → CosignVerificationKey L → Outcome SignedArtifactBundle
  new_verified_artifact raw rekor_pub_key = do
    bundle ←
        map_err (λ e. unexpected_error (concat ("Cannot parse bundle |" ∷ raw ∷ "|: " ∷ e ∷ [])))
          (J.signed_artifact_bundle_from_str raw)
    verify_bundle bundle.rekor_bundle rekor_pub_key
    ok bundle
