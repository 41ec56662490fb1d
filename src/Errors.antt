-- ===== src/Errors.antt =====
-- src/errors.rs: `SigstoreError`, and the results of the crate's functions. A foreign error that a
-- variant wraps (`#[from]`, `transparent`) is represented by the text that it renders to.
use sigstore_rs.Prelude.{String, Result}

pub data SigstoreError : Type 0 where
  url_parse_error : String → SigstoreError
  redirect_url_request_line_error : SigstoreError
  code_pair_error : SigstoreError
  invalid_key_format : String → SigstoreError
  -- key_typ, scheme
  unmatched_key_and_signing_scheme : String → String → SigstoreError
  x509_error : String → SigstoreError
  from_pem_error : String → SigstoreError
  cert_error : String → SigstoreError
  base64_decode_error : String → SigstoreError
  public_key_unsupported_algorithm_error : String → SigstoreError
  public_key_verification_error : SigstoreError
  certificate_validity_error : String → SigstoreError
  certificate_invalid_email : String → SigstoreError
  -- integrated_time, not_before
  certificate_expired_before_signatures_submitted_to_rekor : String → String → SigstoreError
  -- integrated_time, not_after
  certificate_issued_after_signatures_submitted_to_rekor : String → String → SigstoreError
  certificate_without_digital_signature_key_usage : SigstoreError
  certificate_without_code_signing_key_usage : SigstoreError
  certificate_without_subject_alternative_name : SigstoreError
  certificate_with_incomplete_subject_alternative_name : SigstoreError
  certificate_pool_error : String → SigstoreError
  -- image, error
  registry_fetch_manifest_error : String → String → SigstoreError
  registry_pull_manifest_error : String → String → SigstoreError
  registry_pull_error : String → String → SigstoreError
  registry_push_error : String → String → SigstoreError
  oci_reference_not_valid_error : String → SigstoreError
  sigstore_media_type_not_found_error : SigstoreError
  sigstore_layer_digest_mismatch_error : SigstoreError
  sigstore_annotation_not_found_error : SigstoreError
  sigstore_rekor_bundle_not_found_error : SigstoreError
  sigstore_fulcio_certificates_not_provided_error : SigstoreError
  sigstore_no_verified_layer : SigstoreError
  tuf_error : String → SigstoreError
  tuf_target_not_found_error : String → SigstoreError
  io_error : String → SigstoreError
  unexpected_error : String → SigstoreError
  verification_constraint_error : String → SigstoreError
  apply_constraint_error : String → SigstoreError
  claims_verification_error : SigstoreError
  claims_access_point_error : SigstoreError
  no_id_token : SigstoreError
  pkcs8_error : String → SigstoreError
  pkcs8_spki_error : String → SigstoreError
  pkcs8_der_error : String → SigstoreError
  ecdsa_error : String → SigstoreError
  ec_error : String → SigstoreError
  scrypt_kdf_invalid_params_error : String → SigstoreError
  scrypt_kdf_invalid_output_len_error : String → SigstoreError
  private_key_encrypt_error : String → SigstoreError
  private_key_decrypt_error : String → SigstoreError
  serde_json_error : String → SigstoreError
  utf8_error : String → SigstoreError
  key_parse_error : String → SigstoreError
  rsa_error : String → SigstoreError
  pkcs1_error : String → SigstoreError
  ed25519_pkcs1_error : String → SigstoreError

-- `errors::Result<T>`
abbrev pub Outcome : Type 0 → Type 0
Outcome = Result SigstoreError

-- What a function of another crate returns; its error by the text that the source shows of it.
abbrev pub Foreign : Type 0 → Type 0
Foreign = Result String
