-- ===== src/Cosign/Blob.antt =====
-- src/cosign/mod.rs: the verification of a signed blob, by a certificate or by a public key.
use sigstore_rs.Prelude.{String, Bytes, ok, map_err, ◌>>=◌, ◌>>◌, [], ◌∷◌, concat, as_bytes}
use sigstore_rs.Errors.{Outcome, base64_decode_error, from_pem_error, pkcs8_spki_error}
use sigstore_rs.Crypto.Libs.{Libs}
use sigstore_rs.Crypto.Pki.{Pki}
use sigstore_rs.Crypto.VerificationKey
use sigstore_rs.Crypto.VerificationKey.{base64_encoded}

module _ (L : Libs) (P : Pki L) where
  unfoldable pub verify_blob : String → String → Bytes → Outcome (Unit {0})
  verify_blob cert signature blob = do
    decoded ← map_err base64_decode_error (L.base64_decode (as_bytes cert))
    pem ← map_err from_pem_error (L.pem_parse decoded)
    certificate ←
        map_err (λ e. pkcs8_spki_error (concat ("parse der into cert failed: " ∷ e ∷ [])))
          (P.certificate_from_der pem.contents)
    let spki = certificate.subject_public_key_info
    ver_key ← VerificationKey.try_from L spki
    VerificationKey.verify_signature L ver_key (base64_encoded (as_bytes signature)) blob
    ok tt

module _ (L : Libs) where
  unfoldable pub verify_blob_with_public_key : String → String → Bytes → Outcome (Unit {0})
  verify_blob_with_public_key public_key signature blob = do
    ver_key ← VerificationKey.try_from_pem L (as_bytes public_key)
    VerificationKey.verify_signature L ver_key (base64_encoded (as_bytes signature)) blob
    ok tt
